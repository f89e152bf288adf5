-- ===== src/Zmq/Exchange.antt =====
-- A requester and a responder together: src/transport/zmq/zmq_rpc_requester.cpp and
-- src/transport/zmq/zmq_rpc_responder.cpp.
use magpie_cpp.Value
use magpie_cpp.Prelude.Map
use magpie_cpp.Prelude.{Option, not, String, Bool, true, false}
use magpie_cpp.Mqtt.Requester.{PendingCall}
use magpie_cpp.Zmq.Requester.{ZmqRequester, take_message, arrived}
use magpie_cpp.Zmq.Responder.{RouterTurn, payload_error, nothing_readable, identity_error}
use magpie_cpp.Prelude.Result.{Result, ok}
use magpie_cpp.Value.{Value}

-- A pass of the responder's loop that finds no request and fails in no way that it reports.
unfoldable pub goes_round : RouterTurn → Bool
goes_round nothing_readable = true
goes_round (identity_error socket_gone) = not socket_gone
goes_round (payload_error socket_gone) = not socket_gone
goes_round _ = false

-- What the I/O thread makes of a call that is in pending_ when the two messages have arrived.
unfoldable pub both_arrived : String → Value → Value → ZmqRequester → Option PendingCall
unfolding take_message Map.find
both_arrived rid first second q =
    Map.find rid
      (take_message (arrived (ok second)) (take_message (arrived (ok first)) q)).table.calls
