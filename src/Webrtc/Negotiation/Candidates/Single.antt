-- ===== src/Webrtc/Negotiation/Candidates/Single.antt =====
-- One connection for all candidates of a peer, src/transport/webrtc/webrtc_connection.cpp: runs in which
-- no offer comes before the hello that decides the role.
use magpie_cpp.Prelude.{
  ℕ, ◌+◌, String, Bool, not, ◌||◌, ◌&&◌, List, ◌++◌, ◌==◌, ◌∷◌, if◌then◌else◌, Option, true, some,
  none, false, [], text_ltb, ◌≡◌, refl, sym, ◌∙◌, if_rule, arith,
}
use mathlib.Core.Bool.{false≢true}
use magpie_cpp.Prelude.Int.{ℤ}
use magpie_cpp.Webrtc.Negotiation.{
  Accepts, Candidate, Peer, RtcCall, add_remote_candidate, apply_pending_candidates, call_rtc,
  candidate_calls, close_connection, create_data_channel, create_offer, decide_role, new_connection,
  note_remote, offer_calls, on_answer, on_candidate, on_hello, on_offer, send_hello, send_signal,
  set_local_description, set_remote_description, setup_peer_connection, take_description,
}

-- How many connections libdatachannel was asked for.
unfoldable pub connections : List RtcCall → ℕ
connections [] = 0
connections (new_connection ∷ calls) = 1 + connections calls
connections (set_local_description ∷ calls) = connections calls
connections (close_connection ∷ calls) = connections calls
connections (add_remote_candidate cand mid ∷ calls) = connections calls
connections (create_data_channel label ∷ calls) = connections calls
connections (set_remote_description sdp type ∷ calls) = connections calls

connections-append :
    (cs ds : List RtcCall) → connections (cs ++ ds) ≡ connections cs + connections ds
unfolding connections
connections-append [] ds = omega arith
connections-append (new_connection ∷ cs) ds = omega (arith, connections-append cs ds)
connections-append (set_local_description ∷ cs) ds = connections-append cs ds
connections-append (close_connection ∷ cs) ds = connections-append cs ds
connections-append (add_remote_candidate cand mid ∷ cs) ds = connections-append cs ds
connections-append (create_data_channel label ∷ cs) ds = connections-append cs ds
connections-append (set_remote_description sdp type ∷ cs) ds = connections-append cs ds

connections-candidate_calls : (cs : List Candidate) → connections (candidate_calls cs) ≡ 0
unfolding connections candidate_calls
connections-candidate_calls [] = refl
connections-candidate_calls ((cand, mid, idx) ∷ cs) = connections-candidate_calls cs

connections-offer_calls : (use_media : Bool) → connections (offer_calls use_media) ≡ 0
unfolding connections offer_calls
connections-offer_calls true = refl
connections-offer_calls false = refl

-- The peer has a connection from its decision on, and has asked for no other.
pub record HasOne (p : Peer) : Type 0 where
  pub decided : p.role_decided ≡ p.pc
  pub once : connections p.calls ≡ (if p.pc then 1 else 0)

pub kept-HasOne :
    (p q : Peer)
    → q.role_decided ≡ p.role_decided
    → q.pc ≡ p.pc
    → connections q.calls ≡ connections p.calls
    → HasOne p
    → HasOne q
kept-HasOne p q r k c h = record { decided = r ∙ (h.decided ∙ sym k); once = c ∙ rw k h.once }

-- Calls that ask for no connection.
quiet_calls : (cs ds : List RtcCall) → connections ds ≡ 0 → connections (cs ++ ds) ≡ connections cs
quiet_calls cs ds quiet = omega (arith, connections-append cs ds, quiet)

setup-HasOne :
    (p q : Peer)
    → p.pc ≡ false
    → q.role_decided ≡ true
    → q.calls ≡ p.calls
    → HasOne p
    → HasOne (setup_peer_connection q)
unfolding setup_peer_connection call_rtc
setup-HasOne p q closed r c h =
    let none_yet : connections p.calls ≡ 0 = rw closed at h.once in
    record {
      decided = r;
      once =
          rw (connections-append q.calls (new_connection ∷ []), c)
            (unfold connections in omega (arith, none_yet));
    }

create_offer-HasOne : (p : Peer) → HasOne p → HasOne (create_offer p)
unfolding create_offer call_rtc
create_offer-HasOne p h =
    kept-HasOne p (create_offer p) refl refl
      (quiet_calls p.calls (offer_calls p.use_media_channels)
        (connections-offer_calls p.use_media_channels))
      h

decide_role-HasOne : (p : Peer) → p.role_decided ≡ false → HasOne p → HasOne (decide_role p)
unfolding decide_role
decide_role-HasOne p open_role h =
    let closed : p.pc ≡ false = sym h.decided ∙ open_role in
    let decided : Peer = record p { role_decided = true } in
    if_rule HasOne (text_ltb p.remote_peer_id p.peer_id) _ _
      (λ e.
        create_offer-HasOne (setup_peer_connection decided)
          (setup-HasOne p decided closed refl refl h))
      (λ e.
        setup-HasOne p (send_hello decided) closed (unfold send_hello send_signal in refl)
          (unfold send_hello send_signal in refl) h)

pub on_hello-HasOne : (remote : Option String) (p : Peer) → HasOne p → HasOne (on_hello remote p)
unfolding on_hello note_remote
on_hello-HasOne none p h = h
on_hello-HasOne (some remote) p h =
    let noted : HasOne (note_remote remote p) =
      if_rule HasOne (p.remote_peer_id == "") (record p { remote_peer_id = remote }) p
        (λ e. kept-HasOne p (record p { remote_peer_id = remote }) refl refl refl h) (λ e. h) in
    if_rule HasOne ((note_remote remote p).role_decided) _ _ (λ e. noted)
      (λ e. decide_role-HasOne (note_remote remote p) e noted)

take_description-HasOne :
    (accepts : Accepts) (sdp type : String) (p : Peer)
    → HasOne p
    → HasOne (take_description accepts sdp type p)
unfolding take_description apply_pending_candidates call_rtc
take_description-HasOne accepts sdp type p h =
    let described : List RtcCall = p.calls ++ (set_remote_description sdp type ∷ []) in
    let same : connections described ≡ connections p.calls =
      quiet_calls p.calls (set_remote_description sdp type ∷ []) (unfold connections in refl) in
    let more : List RtcCall = candidate_calls p.pending_candidates in
    let called : Peer = record p { calls = described } in
    let applied : Peer = record p {
      calls = described ++ more;
      remote_desc_set = true;
      pending_candidates = [];
    } in
    if_rule HasOne (accepts p.calls sdp type) _ _
      (λ e.
        kept-HasOne p applied refl refl
          (quiet_calls described more (connections-candidate_calls p.pending_candidates) ∙ same) h)
      (λ e. kept-HasOne p called refl refl same h)

-- An offer is taken by the connection that the hello made.
pub on_offer-HasOne :
    (accepts : Accepts) (sdp : Option String) (p : Peer)
    → p.role_decided ≡ true
    → HasOne p
    → HasOne (on_offer accepts sdp p)
unfolding on_offer
on_offer-HasOne accepts none p d h = h
on_offer-HasOne accepts (some sdp) p d h =
    let there : p.pc ≡ true = sym h.decided ∙ d in
    if_rule HasOne p.connected _ _ (λ e. h)
      (λ e.
        if_rule (λ q. HasOne (take_description accepts sdp "offer" q)) p.pc p
          (setup_peer_connection p) (λ k. take_description-HasOne accepts sdp "offer" p h)
          (λ k. absurd (false≢true (sym k ∙ there))))

pub on_answer-HasOne :
    (accepts : Accepts) (sdp : Option String) (p : Peer)
    → HasOne p
    → HasOne (on_answer accepts sdp p)
unfolding on_answer
on_answer-HasOne accepts none p h = h
on_answer-HasOne accepts (some sdp) p h =
    if_rule HasOne (p.connected || not p.pc) _ _ (λ e. h)
      (λ e. take_description-HasOne accepts sdp "answer" p h)

pub on_candidate-HasOne :
    (cand : Option String) (mid : String) (idx : ℤ) (p : Peer)
    → HasOne p
    → HasOne (on_candidate cand mid idx p)
unfolding on_candidate call_rtc
on_candidate-HasOne none mid idx p h = h
on_candidate-HasOne (some cand) mid idx p h =
    let given_on : Peer = record p { calls = p.calls ++ (add_remote_candidate cand mid ∷ []) } in
    let held_back : Peer = record p {
      pending_candidates = p.pending_candidates ++ ((cand, mid, idx) ∷ []);
    } in
    if_rule HasOne (cand == "") _ _ (λ e. h)
      (λ e.
        if_rule HasOne (p.remote_desc_set && p.pc) _ _
          (λ r.
            kept-HasOne p given_on refl refl
              (quiet_calls p.calls (add_remote_candidate cand mid ∷ [])
                (unfold connections in refl))
              h)
          (λ r. kept-HasOne p held_back refl refl refl h))
