-- ===== src/Webrtc/Group/Origins.antt =====
-- Where a group sends its acknowledgements and replies: src/transport/webrtc/webrtc_connection.cpp.
use magpie_cpp.Prelude.Map
use magpie_cpp.Value
use magpie_cpp.Prelude.{
  eq_iff, arith, Bool-cases, if◌then◌else◌, eq_refl, text_ltb, ◌∷◌, ◌==◌, All, ◌||◌, List, ◌≡◌, not,
  Bool, Option, String, true, some, refl, none, inr, inl, false, [],
}
use magpie_cpp.Webrtc.Group.Events.{
  Origin, GroupEvent, spares, group_run, group_step, swept, stops, signalled, sends, requested,
  changed,
}
use magpie_cpp.Prelude.Result.{throw, ok}
use magpie_cpp.Webrtc.Group.{
  sweep_stale, on_state_change, ignore_signal, has_peer, on_signal, or_empty, text_field, PeerGroup,
  has_text, request_from, send_data, answer_origin, record_origin,
}
use magpie_cpp.Webrtc.Responder.{webrtc_reply, webrtc_ack}
use magpie_cpp.Value.{Value}
use magpie_cpp.Mqtt.Requester.{text_of}
use magpie_cpp.Webrtc.Group.Signals.{on_signal-Origin}

record_origin-Origin :
    (remote rid other : String) (t : Option String) (g : PeerGroup)
    → (not (has_text t rid) || other == remote) ≡ true
    → Origin remote rid g
    → Origin remote rid (record_origin other t g)
unfolding record_origin has_text
record_origin-Origin remote rid other none g s o = o
record_origin-Origin remote rid other (some r) g s o =
    rw (Map.find-set r rid other g.rpc_origins) (elim (Bool-cases (r == rid)) [
      | inl e ↦ ground (arith, eq_iff other remote)
      | inr e ↦ rw e o
    ])

answer_origin-Origin :
    (remote rid r : String) (ends : Bool) (found : Option String) (g : PeerGroup)
    → (not ends || not (r == rid)) ≡ true
    → Origin remote rid g
    → Origin remote rid (answer_origin ends r found g).1
unfolding answer_origin
answer_origin-Origin remote rid r ends none g s o = o
answer_origin-Origin remote rid r false (some origin) g s o = o
answer_origin-Origin remote rid r true (some origin) g s o =
    rw (Map.find-erase r rid g.rpc_origins)
      (elim (Bool-cases (r == rid)) [ inl e ↦ ground arith | inr e ↦ rw e o ])

send_data-Origin :
    (remote rid : String) (v : Value) (g : PeerGroup)
    → (not (has_text (text_field "type" v) "rpc_rep") || not (or_empty (text_field "rid" v) == rid))
      ≡ true
    → Origin remote rid g
    → Origin remote rid (send_data v g).1
unfolding send_data
send_data-Origin remote rid v g s o =
    elim (Bool-cases
      (has_text (text_field "type" v) "rpc_ack" || has_text (text_field "type" v) "rpc_rep")) [
        | inl e ↦ simp e (
            answer_origin-Origin remote rid (or_empty (text_field "rid" v))
              (has_text (text_field "type" v) "rpc_rep")
              (Map.find (or_empty (text_field "rid" v)) g.rpc_origins) g s o)
        | inr e ↦ simp e o
      ]

step-Origin :
    (remote rid : String) (e : GroupEvent) (g : PeerGroup)
    → spares remote rid e ≡ true
    → Origin remote rid g
    → Origin remote rid (group_step e g)
unfolding group_step spares
step-Origin remote rid (requested other v) g s o =
    unfold request_from in record_origin-Origin remote rid other _ g s o
step-Origin remote rid (sends v) g s o = send_data-Origin remote rid v g s o
step-Origin remote rid (signalled (ok v)) g s o = on_signal-Origin remote rid v g s o
step-Origin remote rid (signalled (throw e)) g s o = unfold on_signal ignore_signal in o
step-Origin remote rid (changed other true) g s o = unfold on_state_change in o
step-Origin remote rid (changed other false) g s o = unfold on_state_change in o
step-Origin remote rid swept g s o = unfold sweep_stale in o
step-Origin remote rid stops g s o = ground arith

run-Origin :
    (remote rid : String) (g : PeerGroup) (es : List GroupEvent)
    → All (λ e. spares remote rid e ≡ true) es
    → Origin remote rid g
    → Origin remote rid (group_run g es)
unfolding group_run
run-Origin remote rid g [] s o = o
run-Origin remote rid g (e ∷ es) s o =
    step-Origin remote rid e (group_run g es) s.0 (run-Origin remote rid g es s.1 o)

send_data-webrtc_ack :
    (rid : String) (g : PeerGroup)
    → send_data (webrtc_ack rid) g ≡ answer_origin false rid (Map.find rid g.rpc_origins) g
unfolding send_data webrtc_ack text_field text_of Value.find Value.set or_empty has_text text_ltb
send_data-webrtc_ack rid g = refl

send_data-webrtc_reply :
    (rid : String) (response : Value) (g : PeerGroup)
    → send_data (webrtc_reply rid response) g
      ≡ answer_origin true rid (Map.find rid g.rpc_origins) g
unfolding send_data webrtc_reply text_field text_of Value.find Value.set or_empty has_text text_ltb
send_data-webrtc_reply rid response g = refl

request_from-Origin :
    (remote rid : String) (request : Value) (g : PeerGroup)
    → text_field "rid" request ≡ some rid
    → Origin remote rid (request_from remote request g)
unfolding request_from record_origin
request_from-Origin remote rid request g e =
    simp (e, Map.find-set rid rid remote g.rpc_origins, eq_refl rid) refl

-- Let a request with the id `rid` have come from a peer, and let no later event have taken it from that
-- peer: no other peer sent a request with the same id, no reply to it was sent, the peer said no hello
-- and the group was not stopped. Then the acknowledgement of `rid` goes to that peer alone, or to
-- nobody if it has left; the reply does so too, and a second reply goes to nobody.
pub group_run-targets :
    (remote rid : String) (request response again : Value) (g : PeerGroup) (es : List GroupEvent)
    → text_field "rid" request ≡ some rid
    → All (λ e. spares remote rid e ≡ true) es
    → let g' = group_run (request_from remote request g) es in
      let to_remote = (if has_peer remote g'.peers then remote ∷ [] else []) in
      let acked = send_data (webrtc_ack rid) g' in
      let replied = send_data (webrtc_reply rid response) acked.1 in
      (acked.0 ≡ to_remote)
      × (replied.0 ≡ to_remote)
      × ((send_data (webrtc_reply rid again) replied.1).0 ≡ [])
unfolding answer_origin
group_run-targets remote rid request response again g es e s =
    let g' = group_run (request_from remote request g) es in
    let o : Origin remote rid g' =
      run-Origin remote rid (request_from remote request g) es s
        (request_from-Origin remote rid request g e) in
    simp
      (send_data-webrtc_ack, send_data-webrtc_reply, o, Map.find-erase, eq_refl rid, answer_origin)
      (refl, refl, refl)
