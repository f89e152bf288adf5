-- ===== src/Webrtc/Negotiation/Offers/Roles.antt =====
-- Runs of two peers, src/transport/webrtc/webrtc_connection.cpp: exactly one of them offers.
use magpie_cpp.Value
use magpie_cpp.Prelude.{
  String, ◌&&◌, List, ◌++◌, ◌==◌, ◌∷◌, if◌then◌else◌, Option, true, some, none, false, [], text_ltb,
  ◌≡◌, refl, ◌⊎◌, inl, inr, sym, ap, ◌∙◌, if_rule, arith, All, eq_iff, Bool-cases,
}
use mathlib.Core.Bool.{false≢true}
use magpie_cpp.Prelude.Result.{Result, ok, throw}
use magpie_cpp.Value.{Dict, Value, dict, null, bool, int, double, string, binary, list}
use magpie_cpp.Mqtt.Requester.{text_of}
use magpie_cpp.Webrtc.Negotiation.{
  Accepts, Peer, PeerEvent, call_rtc, channel_closed, channel_offered, channel_open,
  close_connection, disconnected, link_lost, local_candidate, local_description, new_connection,
  signal, setup_peer_connection, create_offer, offer_calls, send_hello, send_signal, on_hello,
  note_remote, decide_role, by_type, typed_signal, is_own, on_signal_message, mid_or_zero, index_of,
  on_local_description, on_local_candidate, on_data_channel, disconnect_peer, peer_step, peer_run,
}
use magpie_cpp.Webrtc.Negotiation.Offers.{
  SameRole, SameRole-refl, offers, offers-append, offers-offer_calls, on_offer-SameRole,
  on_answer-SameRole, on_candidate-SameRole,
}

unchanged-SameRole :
    (p q : Peer)
    → q.calls ≡ p.calls
    → q.peer_id ≡ p.peer_id
    → q.remote_peer_id ≡ p.remote_peer_id
    → q.role_decided ≡ p.role_decided
    → SameRole p q
unchanged-SameRole p q c i r d = record {
  same_id = i;
  same_remote = r;
  same_decided = d;
  same_offers = ap offers c;
}

disconnect-SameRole : (p : Peer) → SameRole p (disconnect_peer p)
unfolding disconnect_peer call_rtc
disconnect-SameRole p =
    if_rule (SameRole p) p.disconnecting _ _ (λ e. SameRole-refl p)
      (λ e.
        if_rule (SameRole p) p.pc _ _
          (λ k. record {
            same_id = refl;
            same_remote = refl;
            same_decided = refl;
            same_offers =
                rw (offers-append p.calls (close_connection ∷ [])) (unfold offers in omega arith);
          })
          (λ k. unchanged-SameRole p _ refl refl refl refl))

-- A peer `own` that hears `remote` alone: it offers once if it is the greater of the two, and else
-- not at all, and that only once its role is decided.
pub record HasRole (own remote : String) (p : Peer) : Type 0 where
  pub named : p.peer_id ≡ own
  pub noted : (p.remote_peer_id ≡ "") ⊎ (p.remote_peer_id ≡ remote)
  pub before : p.role_decided ≡ false → offers p.calls ≡ 0
  pub behind : p.role_decided ≡ true → offers p.calls ≡ (if text_ltb remote own then 1 else 0)

SameRole-HasRole :
    (own remote : String) (p q : Peer) → SameRole p q → HasRole own remote p → HasRole own remote q
SameRole-HasRole own remote p q s h = record {
  named = s.same_id ∙ h.named;
  noted = rw s.same_remote h.noted;
  before = λ e. s.same_offers ∙ h.before (sym s.same_decided ∙ e);
  behind = λ e. s.same_offers ∙ h.behind (sym s.same_decided ∙ e);
}

note_remote-noted :
    (own remote : String) (p : Peer)
    → (remote == "") ≡ false
    → HasRole own remote p
    → (note_remote remote p).remote_peer_id ≡ remote
unfolding note_remote
note_remote-noted own remote p named h = elim (Bool-cases (p.remote_peer_id == "")) [
  | inl e ↦ rw e refl
  | inr e ↦ rw e (elim h.noted [
    | inl n ↦ absurd (false≢true (sym e ∙ (eq_iff p.remote_peer_id "").1 n))
    | inr n ↦ n
  ])
]

decide_role-HasRole :
    (own remote : String) (p : Peer)
    → p.remote_peer_id ≡ remote
    → p.role_decided ≡ false
    → HasRole own remote p
    → HasRole own remote (decide_role p)
unfolding decide_role send_hello send_signal create_offer setup_peer_connection call_rtc
decide_role-HasRole own remote p r d h =
    let none_yet = h.before d in
    let test : text_ltb remote own ≡ text_ltb p.remote_peer_id p.peer_id = rw (r, h.named) refl in
    if_rule (HasRole own remote) (text_ltb p.remote_peer_id p.peer_id) _ _
      (λ e. record {
        named = h.named;
        noted = inr r;
        before = λ x. absurd (false≢true (sym x));
        behind = λ x.
            rw
              (
                test ∙ e,
                offers-append (p.calls ++ (new_connection ∷ [])) (offer_calls p.use_media_channels),
                offers-append p.calls (new_connection ∷ []),
                none_yet,
                offers-offer_calls p.use_media_channels,
              )
              (unfold offers in omega arith);
      })
      (λ e. record {
        named = h.named;
        noted = inr r;
        before = λ x. absurd (false≢true (sym x));
        behind = λ x.
            rw (test ∙ e, offers-append p.calls (new_connection ∷ []), none_yet)
              (unfold offers in omega arith);
      })

on_hello-HasRole :
    (own remote : String) (p : Peer)
    → (remote == "") ≡ false
    → HasRole own remote p
    → HasRole own remote (on_hello (some remote) p)
unfolding on_hello
on_hello-HasRole own remote p named h =
    let r = note_remote-noted own remote p named h in
    let noted : HasRole own remote (note_remote remote p) =
      unfold note_remote in
      if_rule (HasRole own remote) (p.remote_peer_id == "") _ _
        (λ e. record { named = h.named; noted = inr refl; before = h.before; behind = h.behind })
        (λ e. h) in
    if_rule (HasRole own remote) ((note_remote remote p).role_decided) _ _ (λ e. noted)
      (λ e. decide_role-HasRole own remote (note_remote remote p) r e noted)

-- A signal of `remote`, which is all that a peer of a group is given, or another event.
abbrev pub IsFrom : String → PeerEvent → Type 0
IsFrom remote (signal (ok (dict d))) = text_of (Value.find "peer_id" d) ≡ some remote
IsFrom remote _ = Unit {0}

-- Any signal but a hello.
pub by_type-SameRole :
    (accepts : Accepts) (type : String) (d : Dict) (p : Peer)
    → (type == "hello") ≡ false
    → SameRole p (by_type accepts type d p)
unfolding by_type
by_type-SameRole accepts type d p no_hello = rw no_hello (
    if_rule (SameRole p) (type == "offer") _ _
      (λ f. on_offer-SameRole accepts (text_of (Value.find "sdp" d)) p)
      (λ f.
        if_rule (SameRole p) (type == "answer") _ _
          (λ a. on_answer-SameRole accepts (text_of (Value.find "sdp" d)) p)
          (λ a.
            if_rule (SameRole p) (type == "candidate") _ _
              (λ c.
                on_candidate-SameRole (text_of (Value.find "candidate" d))
                  (mid_or_zero (text_of (Value.find "sdpMid" d)))
                  (index_of (Value.find "sdpMLineIndex" d)) p)
              (λ c. SameRole-refl p))))

by_type-HasRole :
    (accepts : Accepts) (own remote type : String) (d : Dict) (p : Peer)
    → (remote == "") ≡ false
    → text_of (Value.find "peer_id" d) ≡ some remote
    → HasRole own remote p
    → HasRole own remote (by_type accepts type d p)
by_type-HasRole accepts own remote type d p named from h = elim (Bool-cases (type == "hello")) [
  | inl t ↦ unfold by_type in rw (t, from) (on_hello-HasRole own remote p named h)
  | inr t ↦ SameRole-HasRole own remote p _ (by_type-SameRole accepts type d p t) h
]

typed_signal-HasRole :
    (accepts : Accepts) (own remote : String) (type : Option String) (d : Dict) (p : Peer)
    → (remote == "") ≡ false
    → text_of (Value.find "peer_id" d) ≡ some remote
    → HasRole own remote p
    → HasRole own remote (typed_signal accepts type d p)
unfolding typed_signal
typed_signal-HasRole accepts own remote none d p named from h = h
typed_signal-HasRole accepts own remote (some type) d p named from h =
    if_rule (HasRole own remote) (is_own p.peer_id (text_of (Value.find "peer_id" d))) _ _ (λ e. h)
      (λ e. by_type-HasRole accepts own remote type d p named from h)

signal-HasRole :
    (accepts : Accepts) (own remote : String) (s : Result Value) (p : Peer)
    → (remote == "") ≡ false
    → IsFrom remote (signal s)
    → HasRole own remote p
    → HasRole own remote (on_signal_message accepts s p)
unfolding on_signal_message
signal-HasRole accepts own remote (ok (dict d)) p named from h =
    if_rule (HasRole own remote) p.disconnecting _ _ (λ e. h)
      (λ e.
        typed_signal-HasRole accepts own remote (text_of (Value.find "type" d)) d p named from h)
signal-HasRole accepts own remote (ok null) p named from h = h
signal-HasRole accepts own remote (ok (bool b)) p named from h = h
signal-HasRole accepts own remote (ok (int z)) p named from h = h
signal-HasRole accepts own remote (ok (double x)) p named from h = h
signal-HasRole accepts own remote (ok (string s)) p named from h = h
signal-HasRole accepts own remote (ok (binary b)) p named from h = h
signal-HasRole accepts own remote (ok (list l)) p named from h = h
signal-HasRole accepts own remote (throw e) p named from h = h

-- The callbacks of libdatachannel, and a disconnect.
abbrev pub IsSignal : PeerEvent → Type 0
IsSignal (signal s) = Unit {0}
IsSignal _ = ⊥

pub callback-SameRole :
    (accepts : Accepts) (e : PeerEvent) (p : Peer)
    → ¬ IsSignal e
    → SameRole p (peer_step accepts e p)
unfolding peer_step on_local_description on_local_candidate on_data_channel send_signal
callback-SameRole accepts (signal s) p c = absurd (c tt)
callback-SameRole accepts (local_description type sdp) p c =
    if_rule (SameRole p) p.disconnecting _ _ (λ e. SameRole-refl p)
      (λ e. unchanged-SameRole p _ refl refl refl refl)
callback-SameRole accepts (local_candidate cand mid) p c =
    if_rule (SameRole p) p.disconnecting _ _ (λ e. SameRole-refl p)
      (λ e. unchanged-SameRole p _ refl refl refl refl)
callback-SameRole accepts (channel_offered label) p c =
    if_rule (SameRole p) (label == "magpie") _ _ (λ e. unchanged-SameRole p _ refl refl refl refl)
      (λ e.
        if_rule (SameRole p) (label == "magpie-media" && p.use_media_channels) _ _
          (λ f. unchanged-SameRole p _ refl refl refl refl) (λ f. SameRole-refl p))
callback-SameRole accepts channel_open p c = unchanged-SameRole p _ refl refl refl refl
callback-SameRole accepts channel_closed p c = unchanged-SameRole p _ refl refl refl refl
callback-SameRole accepts link_lost p c =
    if_rule (SameRole p) p.disconnecting _ _ (λ e. SameRole-refl p)
      (λ e. unchanged-SameRole p _ refl refl refl refl)
callback-SameRole accepts disconnected p c = disconnect-SameRole p

peer_step-HasRole :
    (accepts : Accepts) (own remote : String) (e : PeerEvent) (p : Peer)
    → (remote == "") ≡ false
    → IsFrom remote e
    → HasRole own remote p
    → HasRole own remote (peer_step accepts e p)
peer_step-HasRole accepts own remote (signal s) p named from h =
    unfold peer_step in signal-HasRole accepts own remote s p named from h
peer_step-HasRole accepts own remote e p named from h =
    SameRole-HasRole own remote p _ (callback-SameRole accepts e p (λ x. x)) h

pub peer_run-HasRole :
    (accepts : Accepts) (own remote : String) (es : List PeerEvent) (p : Peer)
    → (remote == "") ≡ false
    → All (IsFrom remote) es
    → HasRole own remote p
    → HasRole own remote (peer_run accepts es p)
unfolding peer_run
peer_run-HasRole accepts own remote [] p named from h = h
peer_run-HasRole accepts own remote (e ∷ es) p named from h =
    peer_run-HasRole accepts own remote es (peer_step accepts e p) named from.1
      (peer_step-HasRole accepts own remote e p named from.0 h)
