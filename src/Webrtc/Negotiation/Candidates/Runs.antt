-- ===== src/Webrtc/Negotiation/Candidates/Runs.antt =====
-- Runs of a peer with one connection, src/transport/webrtc/webrtc_connection.cpp.
use magpie_cpp.Value
use magpie_cpp.Prelude.{
  All, String, Bool, ◌&&◌, List, ◌==◌, ◌∷◌, Option, true, some, none, false, [], ◌≡◌, refl, if_rule,
}
use magpie_cpp.Prelude.Result.{Result, ok, throw}
use magpie_cpp.Value.{Dict, Value, dict, null, bool, int, double, string, binary, list}
use magpie_cpp.Mqtt.Requester.{text_of}
use magpie_cpp.Webrtc.Negotiation.{
  Accepts, Peer, PeerEvent, by_type, channel_closed, channel_offered, channel_open, disconnected,
  index_of, is_own, link_lost, local_candidate, local_description, mid_or_zero, on_data_channel,
  on_local_candidate, on_local_description, on_signal_message, peer_run, peer_step, send_signal,
  signal, typed_signal,
}
use magpie_cpp.Webrtc.Negotiation.Candidates.Single.{
  HasOne, kept-HasOne, on_answer-HasOne, on_candidate-HasOne, on_hello-HasOne, on_offer-HasOne,
}

unfoldable pub is_offer_type : Option String → Bool
is_offer_type none = false
is_offer_type (some type) = type == "offer"

unfoldable pub is_offer : PeerEvent → Bool
unfolding is_offer_type text_of Value.find
is_offer (signal (ok (dict d))) = is_offer_type (text_of (Value.find "type" d))
is_offer _ = false

-- No offer comes before the hello that decides the role: libdatachannel's connection is made by that
-- hello, and a later one does not replace it.
abbrev pub HelloFirst : Accepts → List PeerEvent → Peer → Type 0
HelloFirst accepts [] p = Unit
HelloFirst accepts (e ∷ es) p =
    (is_offer e ≡ true → p.role_decided ≡ true) × HelloFirst accepts es (peer_step accepts e p)

by_type-HasOne :
    (accepts : Accepts) (type : String) (d : Dict) (p : Peer)
    → ((type == "offer") ≡ true → p.role_decided ≡ true)
    → HasOne p
    → HasOne (by_type accepts type d p)
unfolding by_type
by_type-HasOne accepts type d p first h =
    if_rule HasOne (type == "hello") _ _
      (λ e. on_hello-HasOne (text_of (Value.find "peer_id" d)) p h)
      (λ e.
        if_rule HasOne (type == "offer") _ _
          (λ o. on_offer-HasOne accepts (text_of (Value.find "sdp" d)) p (first o) h)
          (λ o.
            if_rule HasOne (type == "answer") _ _
              (λ a. on_answer-HasOne accepts (text_of (Value.find "sdp" d)) p h)
              (λ a.
                if_rule HasOne (type == "candidate") _ _
                  (λ c.
                    on_candidate-HasOne (text_of (Value.find "candidate" d))
                      (mid_or_zero (text_of (Value.find "sdpMid" d)))
                      (index_of (Value.find "sdpMLineIndex" d)) p h)
                  (λ c. h))))

typed_signal-HasOne :
    (accepts : Accepts) (type : Option String) (d : Dict) (p : Peer)
    → (is_offer_type type ≡ true → p.role_decided ≡ true)
    → HasOne p
    → HasOne (typed_signal accepts type d p)
unfolding typed_signal is_offer_type
typed_signal-HasOne accepts none d p first h = h
typed_signal-HasOne accepts (some type) d p first h =
    if_rule HasOne (is_own p.peer_id (text_of (Value.find "peer_id" d))) _ _ (λ e. h)
      (λ e. by_type-HasOne accepts type d p first h)

signal-HasOne :
    (accepts : Accepts) (s : Result Value) (p : Peer)
    → (is_offer (signal s) ≡ true → p.role_decided ≡ true)
    → HasOne p
    → HasOne (on_signal_message accepts s p)
unfolding on_signal_message is_offer
signal-HasOne accepts (ok (dict d)) p first h =
    if_rule HasOne p.disconnecting _ _ (λ e. h)
      (λ e. typed_signal-HasOne accepts (text_of (Value.find "type" d)) d p first h)
signal-HasOne accepts (ok null) p first h = h
signal-HasOne accepts (ok (bool b)) p first h = h
signal-HasOne accepts (ok (int z)) p first h = h
signal-HasOne accepts (ok (double x)) p first h = h
signal-HasOne accepts (ok (string s)) p first h = h
signal-HasOne accepts (ok (binary b)) p first h = h
signal-HasOne accepts (ok (list l)) p first h = h
signal-HasOne accepts (throw e) p first h = h

-- Any event but a disconnect.
abbrev pub Stays : PeerEvent → Type 0
Stays disconnected = ⊥
Stays _ = Unit {0}

peer_step-HasOne :
    (accepts : Accepts) (e : PeerEvent) (p : Peer)
    → Stays e
    → (is_offer e ≡ true → p.role_decided ≡ true)
    → HasOne p
    → HasOne (peer_step accepts e p)
unfolding peer_step
peer_step-HasOne accepts (signal s) p k first h = signal-HasOne accepts s p first h
peer_step-HasOne accepts (local_description type sdp) p k first h =
    unfold on_local_description send_signal in
    if_rule HasOne p.disconnecting _ _ (λ e. h) (λ e. kept-HasOne p _ refl refl refl h)
peer_step-HasOne accepts (local_candidate cand mid) p k first h =
    unfold on_local_candidate send_signal in
    if_rule HasOne p.disconnecting _ _ (λ e. h) (λ e. kept-HasOne p _ refl refl refl h)
peer_step-HasOne accepts (channel_offered label) p k first h =
    unfold on_data_channel in
    if_rule HasOne (label == "magpie") _ _ (λ e. kept-HasOne p _ refl refl refl h)
      (λ e.
        if_rule HasOne (label == "magpie-media" && p.use_media_channels) _ _
          (λ f. kept-HasOne p _ refl refl refl h) (λ f. h))
peer_step-HasOne accepts channel_open p k first h = kept-HasOne p _ refl refl refl h
peer_step-HasOne accepts channel_closed p k first h = kept-HasOne p _ refl refl refl h
peer_step-HasOne accepts link_lost p k first h =
    if_rule HasOne p.disconnecting _ _ (λ e. h) (λ e. kept-HasOne p _ refl refl refl h)
peer_step-HasOne accepts disconnected p k first h = absurd k

pub peer_run-HasOne :
    (accepts : Accepts) (es : List PeerEvent) (p : Peer)
    → All Stays es
    → HelloFirst accepts es p
    → HasOne p
    → HasOne (peer_run accepts es p)
unfolding peer_run
peer_run-HasOne accepts [] p k first h = h
peer_run-HasOne accepts (e ∷ es) p k first h =
    peer_run-HasOne accepts es (peer_step accepts e p) k.1 first.1
      (peer_step-HasOne accepts e p k.0 first.0 h)
