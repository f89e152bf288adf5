-- ===== src/Mqtt/Responder.antt =====
-- MqttRpcResponder, src/transport/mqtt/mqtt_rpc_responder.cpp. The deserializer is an argument. What is
-- published is a list of topics with the messages before serialization; `published` is what the
-- connection's publish threw, if it did.
use magpie_cpp.Value
use magpie_cpp.Prelude.{
  if◌then◌else◌, ◌∷◌, ◌<>◌, ℕ, Bool, List, Option, String, true, some, none, [],
}
use magpie_cpp.Value.{Dict, Value, string, empty, dict, bool}
use magpie_cpp.Prelude.Result.{
  ◌>>=◌, what, Exception, Result, timeout_error, throw, std_error, plain_timeout, ok,
}

-- ClientCtxData
pub record ClientContext : Type 0 where
  pub reply_to : String
  pub rid : String

pub record MqttResponder : Type 0 where
  pub name : String
  pub req_closed : Bool
  pub req_queue : List (String × List ℕ)

pub record Received : Type 0 where
  pub outcome : Result (Value × ClientContext)
  pub sent : List (String × Value)
  pub responder : MqttResponder

unfoldable pub push_request : String × List ℕ → List (String × List ℕ) → List (String × List ℕ)
push_request item [] = item ∷ []
push_request item (x ∷ xs) = x ∷ push_request item xs

-- MqttRpcResponder::onRequestMessage
unfoldable pub on_request_message : String → List ℕ → MqttResponder → MqttResponder
unfolding push_request
on_request_message topic payload r =
    if r.req_closed then r else record r { req_queue = push_request (topic, payload) r.req_queue }

unfoldable pub string_field : String → Option Value → Result String
string_field problem (some (string s)) = ok s
string_field problem _ = throw (std_error problem)

unfoldable pub any_field : String → Option Value → Result Value
any_field problem (some v) = ok v
any_field problem none = throw (std_error problem)

unfoldable pub read_request : String → Dict → Result (Value × ClientContext)
unfolding string_field any_field Value.find
read_request name d = do
  rid ← string_field (name <> ": request missing 'rid'") (Value.find "rid" d)
  reply_to ← string_field (name <> ": request missing 'reply_to'") (Value.find "reply_to" d)
  payload ← any_field (name <> ": request missing 'payload'") (Value.find "payload" d)
  ok (payload, record { reply_to = reply_to; rid = rid })

-- The checks of transportRecv on the envelope.
unfoldable pub read_envelope : String → Value → Result (Value × ClientContext)
unfolding read_request
read_envelope name (dict d) = read_request name d
read_envelope name _ = throw (std_error (name <> ": request envelope is not a dict"))

unfoldable pub ack_envelope : ClientContext → Value
ack_envelope ctx = dict (Value.set "ack" (bool true) (Value.set "rid" (string ctx.rid) empty))

unfoldable pub reply_envelope : ClientContext → Value → Value
reply_envelope ctx response =
    dict (Value.set "payload" response (Value.set "rid" (string ctx.rid) empty))

-- The acknowledgement, whose failure is thrown again.
unfoldable pub acknowledge :
    Option Exception → MqttResponder → Result (Value × ClientContext) → Received
unfolding ack_envelope
acknowledge published r (throw e) = record { outcome = throw e; sent = []; responder = r }
acknowledge none r (ok (request, ctx)) = record {
  outcome = ok (request, ctx);
  sent = (ctx.reply_to, ack_envelope ctx) ∷ [];
  responder = r;
}
acknowledge (some e) r (ok (request, ctx)) = record { outcome = throw e; sent = []; responder = r }

unfoldable pub deserialized : String → Result Value → Result (Value × ClientContext)
unfolding read_envelope
deserialized name (ok v) = read_envelope name v
deserialized name (throw e) = elim (what e) [
  | none ↦ throw e
  | some reason ↦ throw (std_error (name <> ": failed to deserialize request: " <> reason))
]

-- transportRecv behind its first check, each time its thread wakes: `none` waits on.
unfoldable pub receive_woken :
    (List ℕ → Result Value) → Option Exception → Bool → MqttResponder → Option Received
unfolding acknowledge deserialized
receive_woken deserialize published expired r = next r.req_queue
  where
    next : List (String × List ℕ) → Option Received
    next [] =
        if r.req_closed
        then some (record {
          outcome = throw (std_error (r.name <> ": transport closed"));
          sent = [];
          responder = r;
        })
        else if expired
        then some (record {
          outcome = throw (timeout_error plain_timeout (r.name <> ": no request received"));
          sent = [];
          responder = r;
        })
        else none
    next ((topic, payload) ∷ rest) = some (
        acknowledge published (record r { req_queue = rest })
          (deserialized r.name (deserialize payload)))

-- MqttRpcResponder::transportRecv, with the wait's first test.
unfoldable pub transport_recv :
    (List ℕ → Result Value) → Option Exception → Bool → MqttResponder → Option Received
unfolding receive_woken
transport_recv deserialize published expired r =
    if r.req_closed
    then some (record {
      outcome = throw (std_error (r.name <> ": transport is closed"));
      sent = [];
      responder = r;
    })
    else receive_woken deserialize published expired r

-- MqttRpcResponder::transportSend, for a context that is set.
unfoldable pub transport_send :
    Option Exception → ClientContext → Value → Result {0} Unit × List (String × Value)
unfolding reply_envelope
transport_send none ctx response = (ok tt, (ctx.reply_to, reply_envelope ctx response) ∷ [])
transport_send (some e) ctx response = (throw e, [])

-- MqttRpcResponder::transportClose, but for the subscription.
unfoldable pub close_requests : MqttResponder → MqttResponder
close_requests r = record r { req_closed = true }
