-- ===== src/Webrtc/Negotiation/Offers.antt =====
-- Who offers, src/transport/webrtc/webrtc_connection.cpp: the roles of two peers that hear each
-- other's signals.
pub mod Roles
pub mod Decided
use magpie_cpp.Value
use magpie_cpp.Prelude.{
  ℕ, ◌+◌, String, Bool, not, ◌||◌, ◌&&◌, List, ◌++◌, ◌==◌, ◌∷◌, if◌then◌else◌, Option, true, some,
  none, false, [], text_ltb, ◌≡◌, ◌≢◌, refl, ◌⊎◌, inl, inr, sym, ap, ◌∙◌, if_rule, arith, All,
  eq_iff, Bool-cases,
}
use mathlib.Core.Bool.{false≢true}
use mathlib.Core.Option.{some-injective}
use mathlib.Core.List.{append-nil}
use magpie_cpp.Prelude.Texts.{text_ltb-not}
use magpie_cpp.Prelude.Int.{ℤ}
use magpie_cpp.Prelude.Result.{Result, ok, throw}
use magpie_cpp.Value.{Dict, Value, dict, null, bool, int, double, string, binary, list}
use magpie_cpp.Mqtt.Requester.{text_of}
use magpie_cpp.Webrtc.Negotiation.{
  Accepts, Candidate, Peer, PeerEvent, RtcCall, add_remote_candidate, call_rtc, channel_closed,
  channel_offered, channel_open, close_connection, create_data_channel, disconnected, link_lost,
  local_candidate, local_description, new_connection, set_local_description, new_peer,
  set_remote_description, signal, candidate_calls, setup_peer_connection, create_offer, offer_calls,
  send_hello, send_signal, on_hello, note_remote, decide_role, apply_pending_candidates,
  take_description, on_offer, on_answer, on_candidate, by_type, typed_signal, is_own,
  on_signal_message, mid_or_zero, index_of, on_local_description, on_local_candidate,
  on_data_channel, disconnect_peer, peer_step, peer_run,
}

-- How often libdatachannel was asked for an offer.
unfoldable pub offers : List RtcCall → ℕ
offers [] = 0
offers (set_local_description ∷ calls) = 1 + offers calls
offers (add_remote_candidate cand mid ∷ calls) = offers calls
offers (new_connection ∷ calls) = offers calls
offers (close_connection ∷ calls) = offers calls
offers (create_data_channel label ∷ calls) = offers calls
offers (set_remote_description sdp type ∷ calls) = offers calls

pub offers-append : (cs ds : List RtcCall) → offers (cs ++ ds) ≡ offers cs + offers ds
unfolding offers
offers-append [] ds = omega arith
offers-append (set_local_description ∷ cs) ds = omega (arith, offers-append cs ds)
offers-append (add_remote_candidate cand mid ∷ cs) ds = offers-append cs ds
offers-append (new_connection ∷ cs) ds = offers-append cs ds
offers-append (close_connection ∷ cs) ds = offers-append cs ds
offers-append (create_data_channel label ∷ cs) ds = offers-append cs ds
offers-append (set_remote_description sdp type ∷ cs) ds = offers-append cs ds

offers-candidate_calls : (cs : List Candidate) → offers (candidate_calls cs) ≡ 0
unfolding offers candidate_calls
offers-candidate_calls [] = refl
offers-candidate_calls ((cand, mid, idx) ∷ cs) = offers-candidate_calls cs

pub offers-offer_calls : (use_media : Bool) → offers (offer_calls use_media) ≡ 1
unfolding offers offer_calls
offers-offer_calls true = omega arith
offers-offer_calls false = omega arith

-- What says who offers is the same behind a step.
pub record SameRole (p q : Peer) : Type 0 where
  pub same_id : q.peer_id ≡ p.peer_id
  pub same_remote : q.remote_peer_id ≡ p.remote_peer_id
  pub same_decided : q.role_decided ≡ p.role_decided
  pub same_offers : offers q.calls ≡ offers p.calls

pub SameRole-refl : (p : Peer) → SameRole p p
SameRole-refl p = record {
  same_id = refl;
  same_remote = refl;
  same_decided = refl;
  same_offers = refl;
}

SameRole-trans : (p q r : Peer) → SameRole p q → SameRole q r → SameRole p r
SameRole-trans p q r s t = record {
  same_id = t.same_id ∙ s.same_id;
  same_remote = t.same_remote ∙ s.same_remote;
  same_decided = t.same_decided ∙ s.same_decided;
  same_offers = t.same_offers ∙ s.same_offers;
}

-- Calls that make no offer.
silent-SameRole :
    (calls : List RtcCall) (p q : Peer)
    → offers calls ≡ 0
    → q.calls ≡ p.calls ++ calls
    → q.peer_id ≡ p.peer_id
    → q.remote_peer_id ≡ p.remote_peer_id
    → q.role_decided ≡ p.role_decided
    → SameRole p q
silent-SameRole calls p q silent c i r d = record {
  same_id = i;
  same_remote = r;
  same_decided = d;
  same_offers = rw (c, offers-append p.calls calls, silent) (omega arith);
}

take_description-SameRole :
    (accepts : Accepts) (sdp type : String) (p : Peer)
    → SameRole p (take_description accepts sdp type p)
unfolding take_description
take_description-SameRole accepts sdp type p =
    let call = set_remote_description sdp type ∷ [] in
    let called : SameRole p (call_rtc call p) =
      silent-SameRole call p (call_rtc call p) (unfold offers in refl) (unfold call_rtc in refl)
        (unfold call_rtc in refl) (unfold call_rtc in refl) (unfold call_rtc in refl) in
    if_rule (SameRole p) (accepts p.calls sdp type) _ _
      (λ e. SameRole-trans p (call_rtc call p) _ called (
        unfold apply_pending_candidates call_rtc in
        silent-SameRole (candidate_calls p.pending_candidates) (call_rtc call p) _
          (offers-candidate_calls p.pending_candidates) refl refl refl refl))
      (λ e. called)

pub setup-SameRole : (p : Peer) → SameRole p (setup_peer_connection p)
unfolding setup_peer_connection call_rtc
setup-SameRole p =
    silent-SameRole (new_connection ∷ []) p _ (unfold offers in refl) refl refl refl refl

pub on_offer-SameRole :
    (accepts : Accepts) (sdp : Option String) (p : Peer) → SameRole p (on_offer accepts sdp p)
unfolding on_offer
on_offer-SameRole accepts none p = SameRole-refl p
on_offer-SameRole accepts (some sdp) p =
    if_rule (SameRole p) p.connected _ _ (λ e. SameRole-refl p)
      (λ e.
        if_rule (λ q. SameRole p (take_description accepts sdp "offer" q)) p.pc p
          (setup_peer_connection p) (λ k. take_description-SameRole accepts sdp "offer" p)
          (λ k.
            SameRole-trans p (setup_peer_connection p) _ (setup-SameRole p)
              (take_description-SameRole accepts sdp "offer" (setup_peer_connection p))))

pub on_answer-SameRole :
    (accepts : Accepts) (sdp : Option String) (p : Peer) → SameRole p (on_answer accepts sdp p)
unfolding on_answer
on_answer-SameRole accepts none p = SameRole-refl p
on_answer-SameRole accepts (some sdp) p =
    if_rule (SameRole p) (p.connected || not p.pc) _ _ (λ e. SameRole-refl p)
      (λ e. take_description-SameRole accepts sdp "answer" p)

pub on_candidate-SameRole :
    (cand : Option String) (mid : String) (idx : ℤ) (p : Peer)
    → SameRole p (on_candidate cand mid idx p)
unfolding on_candidate call_rtc
on_candidate-SameRole none mid idx p = SameRole-refl p
on_candidate-SameRole (some cand) mid idx p =
    if_rule (SameRole p) (cand == "") _ _ (λ e. SameRole-refl p)
      (λ e.
        if_rule (SameRole p) (p.remote_desc_set && p.pc) _ _
          (λ r.
            silent-SameRole (add_remote_candidate cand mid ∷ []) p _ (unfold offers in refl) refl
              refl refl refl)
          (λ r.
            silent-SameRole [] p _ (unfold offers in refl) (sym (append-nil p.calls)) refl refl
              refl))
