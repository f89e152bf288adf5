-- ===== src/Webrtc/Responder.antt =====
-- WebRtcRpcResponder, src/transport/webrtc/webrtc_rpc_responder.cpp. The connection hands it messages
-- that are deserialized; what it sends is a list of messages, and `threw` is what sendData threw, if it
-- did.
use magpie_cpp.Value
use magpie_cpp.Prelude.{◌<>◌, ◌∷◌, if◌then◌else◌, List, Bool, Option, String, true, some, none, []}
use magpie_cpp.Value.{Value, string, empty, dict}
use magpie_cpp.Prelude.Result.{
  ◌>>=◌, Exception, Result, timeout_error, throw, std_error, plain_timeout, ok,
}
use magpie_cpp.Stream.{emplace_back}
use magpie_cpp.Mqtt.Responder.{any_field, string_field}

pub record WebrtcResponder : Type 0 where
  pub name : String
  pub closed : Bool
  pub queue : List Value

pub record WebrtcReceived : Type 0 where
  -- the request and the rid of ClientCtxData
  pub outcome : Result (Value × String)
  pub sent : List Value
  pub responder : WebrtcResponder

-- WebRtcRpcResponder::onRequestMessage
unfoldable pub on_webrtc_request : Value → WebrtcResponder → WebrtcResponder
unfolding emplace_back
on_webrtc_request envelope r =
    if r.closed then r else record r { queue = emplace_back envelope r.queue }

unfoldable pub webrtc_ack : String → Value
webrtc_ack rid = dict (Value.set "rid" (string rid) (Value.set "type" (string "rpc_ack") empty))

unfoldable pub webrtc_reply : String → Value → Value
webrtc_reply rid response = dict (
    Value.set "payload" response
      (Value.set "rid" (string rid) (Value.set "type" (string "rpc_rep") empty)))

-- The checks of transportRecv on the envelope.
unfoldable pub check_envelope : String → Value → Result (Value × String)
unfolding string_field any_field Value.find
check_envelope name (dict d) = do
  rid ← string_field (name <> ": rpc_req missing 'rid'") (Value.find "rid" d)
  payload ← any_field (name <> ": rpc_req missing 'payload'") (Value.find "payload" d)
  ok (payload, rid)
check_envelope name _ = throw (std_error (name <> ": malformed rpc_req: not a dict"))

unfoldable pub webrtc_acknowledge :
    Option Exception → WebrtcResponder → Result (Value × String) → WebrtcReceived
unfolding webrtc_ack
webrtc_acknowledge threw r (throw e) = record { outcome = throw e; sent = []; responder = r }
webrtc_acknowledge none r (ok (request, rid)) = record {
  outcome = ok (request, rid);
  sent = webrtc_ack rid ∷ [];
  responder = r;
}
webrtc_acknowledge (some e) r (ok (request, rid)) = record {
  outcome = throw e;
  sent = [];
  responder = r;
}

-- WebRtcRpcResponder::transportRecv, each time its thread wakes: `none` waits on.
unfoldable pub webrtc_woken :
    Option Exception → Bool → List Value → WebrtcResponder → Option WebrtcReceived
unfolding webrtc_acknowledge check_envelope
webrtc_woken threw expired (envelope ∷ rest) r =
    some (webrtc_acknowledge threw (record r { queue = rest }) (check_envelope r.name envelope))
webrtc_woken threw expired [] r =
    if r.closed
    then some (webrtc_acknowledge threw r (throw (std_error (r.name <> ": transport closed"))))
    else if expired
    then some (
        webrtc_acknowledge threw r
          (throw (timeout_error plain_timeout (r.name <> ": no request received"))))
    else none

unfoldable pub webrtc_recv : Option Exception → Bool → WebrtcResponder → Option WebrtcReceived
unfolding webrtc_woken webrtc_acknowledge
webrtc_recv threw expired r =
    if r.closed
    then some (webrtc_acknowledge threw r (throw (std_error (r.name <> ": transport is closed"))))
    else webrtc_woken threw expired r.queue r

-- WebRtcRpcResponder::transportSend, for a context that is set.
unfoldable pub webrtc_send : Option Exception → String → Value → Result {0} Unit × List Value
unfolding webrtc_reply
webrtc_send none rid response = (ok tt, webrtc_reply rid response ∷ [])
webrtc_send (some e) rid response = (throw e, [])

-- WebRtcRpcResponder::transportClose, but for the callback that it takes back.
unfoldable pub close_webrtc_responder : WebrtcResponder → WebrtcResponder
close_webrtc_responder r = record r { closed = true }
