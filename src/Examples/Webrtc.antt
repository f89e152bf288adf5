-- ===== src/Examples/Webrtc.antt =====
-- A group of WebRTC peers at concrete inputs.
use magpie_cpp.Prelude.Map
use magpie_cpp.Value
use magpie_cpp.Prelude.{String, ◌≡◌, if◌then◌else◌, text_ltb, ◌∷◌, List, true, refl, false, []}
use magpie_cpp.Webrtc.Group.Events.{
  spares, group_step, GroupEvent, group_run, swept, signalled, sends, requested, changed,
}
use magpie_cpp.Value.{string, null, empty, dict}
use magpie_cpp.Prelude.Result.{ok}
use magpie_cpp.Webrtc.Group.{
  erase_origins, sweep_peers, sweep_stale, on_state_change, peer_connected, add_peer, drop_peer,
  store_restart, new_restart, admit_peer, check_role, check_target, has_peer, check_from,
  signal_sender, or_empty, signal_from, has_text, on_signal, answer_origin, send_data, text_field,
  record_origin, request_from, PeerGroup,
}
use magpie_cpp.Webrtc.Requester.{webrtc_envelope}
use magpie_cpp.Webrtc.Responder.{webrtc_ack, webrtc_reply}
use magpie_cpp.Mqtt.Requester.{text_of}
use magpie_cpp.Webrtc.Group.Origins.{group_run-targets}
use magpie_cpp.Webrtc.Callbacks.{GroupCallbacks, remove_pub, remove_request, add_request, add_pub}
use magpie_cpp.Webrtc.Callbacks.Copies.{
  callbacks_run-AreCopies, callbacks_run, AreCopies, GroupChange, joins, changes,
}

abbrev two_peers : PeerGroup
two_peers = record {
  peer_id = "me";
  role = "mesh";
  peers = ("anna", true) ∷ ("bert", true) ∷ [];
  rpc_origins = [];
  restart_ids = [];
  ever_ready_peers = ("anna", true) ∷ ("bert", true) ∷ [];
  ever_connected = true;
  stopped = false;
}

-- bert says hello again, sends a request of his own, and has its reply.
abbrev meanwhile : List GroupEvent
meanwhile =
    swept
    ∷ sends (webrtc_reply "r2" null)
    ∷ requested "bert" (webrtc_envelope "add" "r2" null)
    ∷ changed "bert" true
    ∷ signalled (
        ok (
          dict (
            Value.set "type" (string "hello")
              (Value.set "restart_id" (string "7") (Value.set "peer_id" (string "bert") empty)))))
    ∷ []

abbrev served : PeerGroup
served =
    group_run (request_from "anna" (webrtc_envelope "add" "r1" (string "x")) two_peers) meanwhile

group_run-targets_example :
    let to_remote : List String = (if has_peer "anna" served.peers then "anna" ∷ [] else []) in
    let acked = send_data (webrtc_ack "r1") served in
    let replied = send_data (webrtc_reply "r1" (string "y")) acked.1 in
    (acked.0 ≡ to_remote)
    × (replied.0 ≡ to_remote)
    × ((send_data (webrtc_reply "r1" null) replied.1).0 ≡ [])
unfolding webrtc_envelope webrtc_reply Value.set text_ltb text_field text_of Value.find spares
    has_text or_empty
group_run-targets_example =
    group_run-targets "anna" "r1" (webrtc_envelope "add" "r1" (string "x")) (string "y") null
      two_peers meanwhile refl (refl, (refl, (refl, (refl, (refl, tt)))))

anna_stays : has_peer "anna" served.peers ≡ true
unfolding group_run group_step request_from record_origin send_data answer_origin on_signal
    signal_from signal_sender check_from check_target check_role admit_peer new_restart
    store_restart drop_peer add_peer has_peer peer_connected on_state_change sweep_stale sweep_peers
    webrtc_envelope webrtc_reply Value.set text_ltb text_field text_of Value.find has_text or_empty
    Map.find Map.set Map.erase erase_origins
anna_stays = refl

-- Callbacks are added before and after a peer joins and removed; then another peer joins.
abbrev callback_history : List (GroupChange String)
callback_history =
    joins "bert"
    ∷ changes (remove_request "add" 3)
    ∷ changes (remove_pub "t" 1)
    ∷ changes (add_request "add" "handler")
    ∷ joins "anna"
    ∷ changes (add_pub "t" "second")
    ∷ changes (add_pub "t" "first")
    ∷ []

abbrev new_group : GroupCallbacks String
new_group = record {
  own = record {
    pub_callbacks = [];
    rpc_req_callbacks = [];
    rpc_rep_callbacks = [];
    video_callbacks = [];
    audio_callbacks = [];
  };
  copies = [];
  next_handle = 1;
}

callbacks_run-AreCopies_example :
    AreCopies
      (callbacks_run new_group callback_history).own
      (callbacks_run new_group callback_history).copies
callbacks_run-AreCopies_example = callbacks_run-AreCopies new_group callback_history refl tt
