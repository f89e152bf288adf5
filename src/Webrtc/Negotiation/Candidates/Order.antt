-- ===== src/Webrtc/Negotiation/Candidates/Order.antt =====
-- Runs of a peer, src/transport/webrtc/webrtc_connection.cpp: no candidate is lost or overtaken.
use mathlib.Core.List.{append_assoc, append-nil}
use magpie_cpp.Value
use magpie_cpp.Prelude.{
  String, Bool, List, ◌++◌, ◌==◌, ◌∷◌, Option, some, none, [], refl, ap, ◌∙◌, Bool-cases, inl, inr,
  eq_iff, All, sym, if_rule, ◌&&◌,
}
use mathlib.Core.Bool.{false≢true}
use magpie_cpp.Prelude.Result.{Result, ok, throw}
use magpie_cpp.Value.{Dict, Value, dict, null, bool, int, double, string, binary, list}
use magpie_cpp.Mqtt.Requester.{text_of}
use magpie_cpp.Webrtc.Negotiation.{
  Accepts, Peer, PeerEvent, channel_closed, channel_offered, channel_open, disconnected, link_lost,
  local_candidate, local_description, signal, send_signal, by_type, typed_signal, is_own,
  on_signal_message, mid_or_zero, index_of, on_local_description, on_local_candidate,
  on_data_channel, peer_step, peer_run, new_peer,
}
use magpie_cpp.Webrtc.Negotiation.Candidates.{
  IsInOrder, given, waiting, candidate_of, candidate_from, heard_candidate, heard_candidates,
}
use magpie_cpp.Webrtc.Negotiation.Candidates.Runs.{Stays}
use magpie_cpp.Webrtc.Negotiation.Candidates.Handled.{
  kept-IsInOrder, on_hello-IsInOrder, on_offer-IsInOrder, on_answer-IsInOrder,
  on_candidate-IsInOrder,
}

by_type-IsInOrder :
    (accepts : Accepts) (own : String) (heard : List (String × String)) (type : String) (d : Dict)
    (p : Peer)
    → IsInOrder own heard p
    → IsInOrder own (heard ++ candidate_of type d) (by_type accepts type d p)
unfolding by_type candidate_of
by_type-IsInOrder accepts own heard type d p o = elim (Bool-cases (type == "candidate")) [
  | inl c ↦ rw ((eq_iff type "candidate").0 c) (
      on_candidate-IsInOrder own heard (text_of (Value.find "candidate" d))
        (mid_or_zero (text_of (Value.find "sdpMid" d))) (index_of (Value.find "sdpMLineIndex" d)) p
        o)
  | inr c ↦
      rw (c, append-nil heard)
        (if_rule (IsInOrder own heard) (type == "hello") _ _
          (λ h. on_hello-IsInOrder own heard (text_of (Value.find "peer_id" d)) p o)
          (λ h.
            if_rule (IsInOrder own heard) (type == "offer") _ _
              (λ f. on_offer-IsInOrder accepts own heard (text_of (Value.find "sdp" d)) p o)
              (λ f.
                if_rule (IsInOrder own heard) (type == "answer") _ _
                  (λ a. on_answer-IsInOrder accepts own heard (text_of (Value.find "sdp" d)) p o)
                  (λ a. o))))
]

typed_signal-IsInOrder :
    (accepts : Accepts) (own : String) (heard : List (String × String)) (type : Option String)
    (d : Dict) (p : Peer)
    → IsInOrder own heard p
    → IsInOrder own (heard ++ candidate_from own type d) (typed_signal accepts type d p)
unfolding typed_signal candidate_from
typed_signal-IsInOrder accepts own heard none d p o = rw (append-nil heard) o
typed_signal-IsInOrder accepts own heard (some type) d p o =
    let from = text_of (Value.find "peer_id" d) in
    let same = ap (λ i. is_own i from) o.named in
    elim (Bool-cases (is_own own from)) [
      | inl e ↦ rw (same ∙ e, e, append-nil heard) o
      | inr e ↦ rw (same ∙ e, e) (by_type-IsInOrder accepts own heard type d p o)
    ]

signal-IsInOrder :
    (accepts : Accepts) (own : String) (heard : List (String × String)) (s : Result Value)
    (p : Peer)
    → IsInOrder own heard p
    → IsInOrder own (heard ++ heard_candidate own (signal s)) (on_signal_message accepts s p)
unfolding heard_candidate on_signal_message
signal-IsInOrder accepts own heard (ok (dict d)) p o =
    let type = text_of (Value.find "type" d) in
    if_rule (IsInOrder own (heard ++ candidate_from own type d)) p.disconnecting _ _
      (λ e. absurd (false≢true (sym o.not_disconnecting ∙ e)))
      (λ e. typed_signal-IsInOrder accepts own heard type d p o)
signal-IsInOrder accepts own heard (ok null) p o = rw (append-nil heard) o
signal-IsInOrder accepts own heard (ok (bool b)) p o = rw (append-nil heard) o
signal-IsInOrder accepts own heard (ok (int z)) p o = rw (append-nil heard) o
signal-IsInOrder accepts own heard (ok (double x)) p o = rw (append-nil heard) o
signal-IsInOrder accepts own heard (ok (string s)) p o = rw (append-nil heard) o
signal-IsInOrder accepts own heard (ok (binary b)) p o = rw (append-nil heard) o
signal-IsInOrder accepts own heard (ok (list l)) p o = rw (append-nil heard) o
signal-IsInOrder accepts own heard (throw e) p o = rw (append-nil heard) o

peer_step-IsInOrder :
    (accepts : Accepts) (own : String) (heard : List (String × String)) (e : PeerEvent) (p : Peer)
    → Stays e
    → IsInOrder own heard p
    → IsInOrder own (heard ++ heard_candidate own e) (peer_step accepts e p)
unfolding peer_step heard_candidate
peer_step-IsInOrder accepts own heard (signal s) p k o = signal-IsInOrder accepts own heard s p o
peer_step-IsInOrder accepts own heard (local_description type sdp) p k o = rw (append-nil heard) (
    unfold on_local_description send_signal in
    if_rule (IsInOrder own heard) p.disconnecting _ _ (λ e. o)
      (λ e. kept-IsInOrder own heard p _ refl refl refl refl refl refl o))
peer_step-IsInOrder accepts own heard (local_candidate cand mid) p k o = rw (append-nil heard) (
    unfold on_local_candidate send_signal in
    if_rule (IsInOrder own heard) p.disconnecting _ _ (λ e. o)
      (λ e. kept-IsInOrder own heard p _ refl refl refl refl refl refl o))
peer_step-IsInOrder accepts own heard (channel_offered label) p k o = rw (append-nil heard) (
    unfold on_data_channel in
    if_rule (IsInOrder own heard) (label == "magpie") _ _
      (λ e. kept-IsInOrder own heard p _ refl refl refl refl refl refl o)
      (λ e.
        if_rule (IsInOrder own heard) (label == "magpie-media" && p.use_media_channels) _ _
          (λ f. kept-IsInOrder own heard p _ refl refl refl refl refl refl o) (λ f. o)))
peer_step-IsInOrder accepts own heard channel_open p k o =
    rw (append-nil heard) (kept-IsInOrder own heard p _ refl refl refl refl refl refl o)
peer_step-IsInOrder accepts own heard channel_closed p k o =
    rw (append-nil heard) (kept-IsInOrder own heard p _ refl refl refl refl refl refl o)
peer_step-IsInOrder accepts own heard link_lost p k o = rw (append-nil heard) (
    if_rule (IsInOrder own heard) p.disconnecting _ _ (λ e. o)
      (λ e. kept-IsInOrder own heard p _ refl refl refl refl refl refl o))
peer_step-IsInOrder accepts own heard disconnected p k o = absurd k

-- Behind any events but a disconnect.
pub peer_run-IsInOrder :
    (accepts : Accepts) (own : String) (heard : List (String × String)) (es : List PeerEvent)
    (p : Peer)
    → All Stays es
    → IsInOrder own heard p
    → IsInOrder own (heard ++ heard_candidates own es) (peer_run accepts es p)
unfolding peer_run heard_candidates
peer_run-IsInOrder accepts own heard [] p k o = rw (append-nil heard) o
peer_run-IsInOrder accepts own heard (e ∷ es) p k o =
    rw (← append_assoc heard (heard_candidate own e) (heard_candidates own es)) (
      peer_run-IsInOrder accepts own (heard ++ heard_candidate own e) es (peer_step accepts e p) k.1
        (peer_step-IsInOrder accepts own heard e p k.0 o))

-- Behind any events but a disconnect, from a new peer on.
pub peer_run-new_peer :
    (accepts : Accepts) (own target role : String) (use_media : Bool) (es : List PeerEvent)
    → All Stays es
    → IsInOrder own
        (heard_candidates own es)
        (peer_run accepts es (new_peer own target role use_media))
peer_run-new_peer accepts own target role use_media es k =
    peer_run-IsInOrder accepts own [] es (new_peer own target role use_media) k (
      unfold new_peer given waiting in
      record {
        none_lost = refl;
        none_early = λ e. refl;
        none_late = λ e. refl;
        has_connection = λ e. absurd (false≢true e);
        not_disconnecting = refl;
        named = refl;
      })
