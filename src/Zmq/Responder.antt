-- ===== src/Zmq/Responder.antt =====
-- ZmqRpcResponder, src/transport/zmq/zmq_rpc_responder.cpp. What the ROUTER socket reports is a list
-- of passes, one for each pass of the loop in socketReceive; the deserializer is an argument. What is
-- sent is a list of identities with the messages before serialization; `threw` is what serializing or
-- sending one threw, if it did.
use magpie_cpp.Value
use magpie_cpp.Prelude.{
  not, ◌∷◌, if◌then◌else◌, ◌<>◌, ℕ, Option, List, String, Bool, true, some, none, false, [],
}
use magpie_cpp.Value.{Value, string, empty, dict, bool}
use magpie_cpp.Prelude.Result.{
  Exception, Result, timeout_error, throw, std_error, plain_timeout, ok,
}

-- What a pass meets, behind the test of the deadline: zmq_poll or a zmq_msg_recv fails (the flag says
-- whether the socket is null by then), nothing is readable, the first frame is the only one, or both
-- frames are there. The second frame is closed before its bytes are read: the last list is what its
-- memory holds by then, of which ZeroMQ promises nothing.
pub data RouterTurn : Type 0 where
  deadline_passed nothing_readable lone_frame : RouterTurn
  poll_error identity_error payload_error : Bool → RouterTurn
  frames : List ℕ → List ℕ → List ℕ → RouterTurn

pub record ZmqResponder : Type 0 where
  pub name : String
  pub socket : Bool

-- ClientCtxData
pub record RouterClient : Type 0 where
  pub identity : List ℕ
  pub rid : String

pub record RouterReceived : Type 0 where
  pub outcome : Result (Value × RouterClient)
  pub sent : List (List ℕ × Value)

unfoldable pub with_identity : List ℕ → Result Value → Result (Option (List ℕ × Value))
with_identity identity (ok v) = ok (some (identity, v))
with_identity identity (throw e) = throw e

-- ZmqRpcResponder::socketReceive on an open socket: `some (ok none)` is its `false`, and `none` waits on.
unfoldable pub socket_receive :
    String → (List ℕ → Result Value) → List RouterTurn → Option (Result (Option (List ℕ × Value)))
unfolding with_identity
socket_receive name deserialize [] = none
socket_receive name deserialize (deadline_passed ∷ passes) =
    some (throw (timeout_error plain_timeout (name <> ": no request received")))
socket_receive name deserialize (poll_error true ∷ passes) = some (ok none)
socket_receive name deserialize (poll_error false ∷ passes) =
    some (throw (std_error (name <> ": zmq_poll failed")))
socket_receive name deserialize (identity_error true ∷ passes) = some (ok none)
socket_receive name deserialize (identity_error false ∷ passes) =
    socket_receive name deserialize passes
socket_receive name deserialize (lone_frame ∷ passes) =
    some (throw (std_error (name <> ": invalid message format, expected [identity, payload]")))
socket_receive name deserialize (payload_error true ∷ passes) = some (ok none)
socket_receive name deserialize (payload_error false ∷ passes) =
    socket_receive name deserialize passes
socket_receive name deserialize (frames identity bytes left ∷ passes) =
    some (with_identity identity (deserialize left))
socket_receive name deserialize (nothing_readable ∷ passes) = socket_receive name deserialize passes

unfoldable pub rid_and_payload : Option Value → Option Value → Option (String × Value)
rid_and_payload (some (string rid)) (some payload) = some (rid, payload)
rid_and_payload _ _ = none

-- isValidRequestDict, with the two fields it finds.
unfoldable pub valid_request : Value → Option (String × Value)
unfolding rid_and_payload Value.find
valid_request (dict d) = rid_and_payload (Value.find "rid" d) (Value.find "payload" d)
valid_request _ = none

unfoldable pub router_ack : String → Value
router_ack rid = dict (Value.set "ack" (bool true) (Value.set "rid" (string rid) empty))

unfoldable pub router_reply : String → Value → Value
router_reply rid response = dict (Value.set "payload" response (Value.set "rid" (string rid) empty))

unfoldable pub refused : Exception → RouterReceived
refused e = record { outcome = throw e; sent = [] }

-- The acknowledgement, whose failure is thrown again.
unfoldable pub router_acknowledge :
    Option Exception → String → List ℕ → Option (String × Value) → RouterReceived
unfolding refused router_ack
router_acknowledge threw name identity none =
    refused (std_error (name <> ": invalid request format"))
router_acknowledge none name identity (some (rid, payload)) = record {
  outcome = ok (payload, record { identity = identity; rid = rid });
  sent = (identity, router_ack rid) ∷ [];
}
router_acknowledge (some e) name identity (some (rid, payload)) = refused e

unfoldable pub router_request :
    Option Exception → String → Result (Option (List ℕ × Value)) → RouterReceived
unfolding refused router_acknowledge valid_request
router_request threw name (throw e) = refused e
router_request threw name (ok none) = refused (std_error (name <> ": socket closed"))
router_request threw name (ok (some (identity, v))) =
    router_acknowledge threw name identity (valid_request v)

unfoldable pub router_woken :
    Option Exception → String → Option (Result (Option (List ℕ × Value))) → Option RouterReceived
unfolding router_request
router_woken threw name none = none
router_woken threw name (some received) = some (router_request threw name received)

-- ZmqRpcResponder::transportRecv: `none` waits on.
unfoldable pub router_recv :
    (List ℕ → Result Value)
    → Option Exception
    → List RouterTurn
    → ZmqResponder
    → Option RouterReceived
unfolding refused socket_receive router_woken
router_recv deserialize threw passes r =
    if not r.socket
    then some (refused (std_error (r.name <> ": socket is null")))
    else router_woken threw r.name (socket_receive r.name deserialize passes)

-- ZmqRpcResponder::transportSend, for a context that is set.
unfoldable pub router_send :
    Option Exception → RouterClient → Value → ZmqResponder → Result {0} Unit × List (List ℕ × Value)
unfolding router_reply
router_send threw ctx response r =
    if not r.socket then (throw (std_error (r.name <> ": socket is null")), []) else answer threw
  where
    answer : Option Exception → Result {0} Unit × List (List ℕ × Value)
    answer none = (ok tt, (ctx.identity, router_reply ctx.rid response) ∷ [])
    answer (some e) = (throw e, [])

-- ZmqRpcResponder::transportClose
unfoldable pub close_router : ZmqResponder → ZmqResponder
close_router r = record r { socket = false }
