-- ===== src/Webrtc/Negotiation/Signals.antt =====
-- What a peer does with a signal that another peer sends, src/transport/webrtc/webrtc_connection.cpp.
pub mod Exchange
use magpie_cpp.Value
use magpie_cpp.Prelude.{
  String, Bool, List, ◌++◌, ◌==◌, ◌∷◌, if◌then◌else◌, Option, true, some, none, false, [], text_ltb,
  ◌≡◌, refl, not, arith, ap, ◌∙◌, if_rule, sym,
}
use mathlib.Core.Bool.{false≢true}
use magpie_cpp.Value.{Dict, Value, dict, empty, string}
use magpie_cpp.Prelude.Result.{Result, ok}
use magpie_cpp.Mqtt.Requester.{text_of}
use magpie_cpp.Webrtc.Negotiation.{
  Accepts, Peer, PeerEvent, RtcCall, add_remote_candidate, addressed, close_connection,
  create_data_channel, new_connection, new_peer, peer_step, set_local_description,
  set_remote_description, signal, local_description, send_hello, hello_message, description_message,
  on_signal_message, typed_signal, by_type, is_own, on_hello, note_remote, decide_role, on_offer,
  on_answer, on_local_description, take_description, call_rtc, setup_peer_connection, create_offer,
  offer_calls, apply_pending_candidates, candidate_calls, send_signal,
}

-- The remote description of the connection that was made last.
unfoldable pub described : Option (String × String) → List RtcCall → Option (String × String)
described was [] = was
described was (new_connection ∷ calls) = described none calls
described was (set_remote_description sdp type ∷ calls) = described (some (sdp, type)) calls
described was (set_local_description ∷ calls) = described was calls
described was (close_connection ∷ calls) = described none calls
described was (create_data_channel label ∷ calls) = described was calls
described was (add_remote_candidate cand mid ∷ calls) = described was calls

unfoldable pub last_of : Dict → List Dict → Dict
last_of d [] = d
last_of d (e ∷ ds) = last_of e ds

-- The signal that a peer sent last, as another one gets it.
unfoldable pub last_signal : Peer → PeerEvent
unfolding last_of
last_signal p = signal (ok (dict (last_of empty p.signals)))

last_of-append : (d e : Dict) (ds : List Dict) → last_of d (ds ++ (e ∷ [])) ≡ e
unfolding last_of
last_of-append d e [] = refl
last_of-append d e (c ∷ ds) = last_of-append c e ds

last_signal-send_signal :
    (msg : Dict) (p : Peer) → last_signal (send_signal msg p) ≡ signal (ok (dict (addressed p msg)))
unfolding last_signal send_signal
last_signal-send_signal msg p = rw (last_of-append empty (addressed p msg) p.signals) refl

-- The address of a signal leaves the other entries alone.
find-addressed :
    (k : String) (msg : Dict) (p : Peer)
    → ("role" == k) ≡ false
    → ("to_peer_id" == k) ≡ false
    → Value.find k (addressed p msg) ≡ Value.find k msg
unfolding addressed
find-addressed k msg p r t =
    rw (Value.find-set "role" k (string p.role) _, r)
      (if_rule (λ d. Value.find k d ≡ Value.find k msg) (p.target_remote == "") _ _ (λ e. refl)
        (λ e. rw (Value.find-set "to_peer_id" k (string p.target_remote) msg, t) refl))

module _ (accepts : Accepts) (p q : Peer) (other : (q.peer_id == p.peer_id) ≡ false)
    (stays : p.disconnecting ≡ false) where
  -- What `p` does with a signal of `q`.
  signal-heard :
      (type : String) (msg : Dict)
      → text_of (Value.find "type" msg) ≡ some type
      → text_of (Value.find "peer_id" msg) ≡ some q.peer_id
      → peer_step accepts (signal (ok (dict (addressed q msg)))) p
        ≡ by_type accepts type (addressed q msg) p
  signal-heard type msg t i =
      let from = text_of (Value.find "peer_id" (addressed q msg)) in
      let not_own : is_own p.peer_id from ≡ false =
        rw (find-addressed "peer_id" msg q refl refl, i) (unfold is_own in other) in
      unfold peer_step on_signal_message in
      if_rule (λ r. r ≡ by_type accepts type (addressed q msg) p) p.disconnecting _ _
        (λ e. absurd (false≢true (sym stays ∙ e)))
        (λ e.
          rw (find-addressed "type" msg q refl refl, t)
            (unfold typed_signal in
              if_rule (λ r. r ≡ by_type accepts type (addressed q msg) p) (is_own p.peer_id from) _
                _ (λ o. absurd (false≢true (sym not_own ∙ o))) (λ o. refl)))

  pub hello-heard : peer_step accepts (last_signal (send_hello q)) p ≡ on_hello (some q.peer_id) p
  hello-heard =
      let msg = hello_message q.peer_id in
      unfold send_hello in
      rw (last_signal-send_signal msg q) (
        signal-heard "hello" msg (unfold hello_message Value.set Value.find text_of in refl)
          (unfold hello_message Value.set Value.find text_of in refl)
        ∙ unfold by_type in
          rw (find-addressed "peer_id" msg q refl refl)
            (unfold hello_message Value.set Value.find text_of in refl))

  pub description_sent :
      (type sdp : String)
      → q.disconnecting ≡ false
      → peer_step accepts (local_description type sdp) q
        ≡ send_signal (description_message type q.peer_id sdp) q
  description_sent type sdp live =
      unfold peer_step on_local_description in
      if_rule (λ r. r ≡ send_signal (description_message type q.peer_id sdp) q) q.disconnecting _ _
        (λ e. absurd (false≢true (sym live ∙ e))) (λ e. refl)

  pub offer-heard :
      (sdp : String)
      → q.disconnecting ≡ false
      → peer_step accepts (last_signal (peer_step accepts (local_description "offer" sdp) q)) p
        ≡ on_offer accepts (some sdp) p
  offer-heard sdp live =
      let msg = description_message "offer" q.peer_id sdp in
      rw (description_sent "offer" sdp live, last_signal-send_signal msg q)
        (signal-heard "offer" msg (unfold description_message Value.set Value.find text_of in refl)
            (unfold description_message Value.set Value.find text_of in refl)
          ∙ unfold by_type in
            rw (find-addressed "sdp" msg q refl refl)
              (unfold description_message Value.set Value.find text_of in refl))

  pub answer-heard :
      (sdp : String)
      → q.disconnecting ≡ false
      → peer_step accepts (last_signal (peer_step accepts (local_description "answer" sdp) q)) p
        ≡ on_answer accepts (some sdp) p
  answer-heard sdp live =
      let msg = description_message "answer" q.peer_id sdp in
      rw (description_sent "answer" sdp live, last_signal-send_signal msg q)
        (signal-heard "answer" msg (unfold description_message Value.set Value.find text_of in refl)
            (unfold description_message Value.set Value.find text_of in refl)
          ∙ unfold by_type in
            rw (find-addressed "sdp" msg q refl refl)
              (unfold description_message Value.set Value.find text_of in refl))
