-- ===== src/Examples/Negotiation.antt =====
-- The negotiation of WebRTC peers at concrete inputs.
use magpie_cpp.Value
use magpie_cpp.Value.{Dict, dict, empty, string}
use magpie_cpp.Prelude.Result.{ok}
use magpie_cpp.Prelude.{
  String, List, ◌∷◌, ◌+◌, ◌≡◌, ◌≢◌, refl, none, false, true, [], text_ltb, if◌then◌else◌, arith,
  sym, eq_iff,
}
use magpie_cpp.Mqtt.Requester.{text_of}
use magpie_cpp.Webrtc.Negotiation.{
  Accepts, PeerEvent, channel_open, disconnected, local_description, new_peer, peer_run, peer_step,
  send_hello, signal,
}
use magpie_cpp.Webrtc.Negotiation.Candidates.{heard_candidates}
use magpie_cpp.Webrtc.Negotiation.Offers.{offers}
use magpie_cpp.Webrtc.Negotiation.Offers.Decided.{Meets, peers_run-one_offer}
use magpie_cpp.Webrtc.Negotiation.Signals.{described, last_signal}
use magpie_cpp.Webrtc.Negotiation.Signals.Exchange.{
  Took, exchange, exchange-Took, late_hello-undescribed,
}

abbrev takes_all : Accepts
takes_all calls sdp type = true

-- A hello of a peer, and a candidate of it.
abbrev hello_of : String → Dict
hello_of id = Value.entry "peer_id" (string id) (Value.entry "type" (string "hello") empty)

abbrev candidate_by : String → Dict
candidate_by id =
    Value.entry "candidate" (string "c1")
      (Value.entry "peer_id" (string id) (Value.entry "type" (string "candidate") empty))

abbrev offer_by : String → Dict
offer_by id =
    Value.entry "peer_id" (string id)
      (Value.entry "sdp" (string "v=0") (Value.entry "type" (string "offer") empty))

abbrev candidate_first : List PeerEvent
candidate_first =
    signal (ok (dict (candidate_by "a")))
    ∷ signal (ok (dict (hello_of "a")))
    ∷ signal (ok (dict (offer_by "a")))
    ∷ signal (ok (dict (candidate_by "b")))
    ∷ []

-- Of these candidates one is the peer's own.
one_heard : heard_candidates "b" candidate_first ≡ ("c1", "0") ∷ []
unfolding heard_candidates Value.find text_of
one_heard = refl

abbrev b_hears : List PeerEvent
b_hears = signal (ok (dict (hello_of "a"))) ∷ channel_open ∷ []

abbrev a_hears : List PeerEvent
a_hears = signal (ok (dict (hello_of "b"))) ∷ disconnected ∷ []

b-Meets : Meets "b" "a" b_hears
unfolding Value.find text_of
b-Meets = record {
  earlier = [];
  hello = hello_of "a";
  later = channel_open ∷ [];
  in_order = refl;
  is_hello = record { of_hello = refl; of_remote = refl };
  all_from = (refl, (tt, tt));
  all_stay = tt;
}

a-Meets : Meets "a" "b" a_hears
unfolding Value.find text_of
a-Meets = record {
  earlier = [];
  hello = hello_of "b";
  later = disconnected ∷ [];
  in_order = refl;
  is_hello = record { of_hello = refl; of_remote = refl };
  all_from = (refl, (tt, tt));
  all_stay = tt;
}

a_is_not_b : ◌≢◌ {A = String} "a" "b"
a_is_not_b e = absurd (ground (arith, (eq_iff "a" "b").1 e))

peers_run-one_offer_example :
    let p = peer_run takes_all b_hears (new_peer "b" "a" "mesh" true) in
    let q = peer_run takes_all a_hears (new_peer "a" "b" "mesh" false) in
    (offers p.calls + offers q.calls ≡ 1) × (offers p.calls ≡ (if text_ltb "a" "b" then 1 else 0))
peers_run-one_offer_example =
    peers_run-one_offer takes_all "b" "a" "mesh" "mesh" true false b_hears a_hears refl refl
      (λ e. a_is_not_b (sym e)) b-Meets a-Meets

exchange-Took_example :
    let e =
      exchange takes_all "offer sdp" "answer sdp"
        (new_peer "b" "a" "host" true)
        (new_peer "a" "b" "client" true) in
    Took "offer sdp" "offer" e.answering × Took "answer sdp" "answer" e.offering
exchange-Took_example =
    exchange-Took takes_all (λ calls sdp type. refl) "b" "a" "host" "client" true true "offer sdp"
      "answer sdp" (λ e. a_is_not_b (sym e))

late_hello-undescribed_example :
    let q = new_peer "b" "a" "mesh" true in
    let p1 =
      peer_step takes_all
        (last_signal (peer_step takes_all (local_description "offer" "offer sdp") q))
        (new_peer "a" "b" "mesh" true) in
    let p2 = peer_step takes_all (last_signal (send_hello q)) p1 in
    Took "offer sdp" "offer" p1 × (described none p2.calls ≡ none) × (p2.remote_desc_set ≡ true)
unfolding new_peer text_ltb
late_hello-undescribed_example =
    late_hello-undescribed takes_all (λ calls sdp type. refl) "a" "b" "mesh" true "offer sdp"
      (new_peer "b" "a" "mesh" true) a_is_not_b refl refl refl
