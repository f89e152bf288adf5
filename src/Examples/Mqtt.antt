-- ===== src/Examples/Mqtt.antt =====
-- Subscriptions and calls over MQTT at concrete inputs.
use magpie_cpp.Value
use magpie_cpp.Prelude.Map
use magpie_cpp.Prelude.{◌≡◌, ◌∷◌, ℕ, String, List, true, refl, some, none, false, []}
use magpie_cpp.Mqtt.Requester.{
  read_dict, read_reply, request_envelope, transport_close, new_pending, CallTable, waiting_ack,
  payload_reply, finished, ack_reply,
}
use magpie_cpp.Mqtt.Connection.Broker.{apply_call}
use magpie_cpp.Mqtt.Connection.Session.{
  arrives, session_step, session_run-SessionIsSynced, session_run, Event, SessionIsSynced, Session,
  remove, connection_lost, connected, add,
}
use magpie_cpp.Mqtt.Requester.Calls.{
  Heard, call_step, CallEvent, call_run, woken, other_started, other_left, message,
}
use magpie_cpp.Prelude.Int.{pos, negsuc}
use magpie_cpp.Value.{Value, string, null}
use magpie_cpp.Prelude.Result.{Result, ok}
use magpie_cpp.Mqtt.Connection.{Connection}
use magpie_cpp.Mqtt.Responder.{ack_envelope, reply_envelope, MqttResponder, ClientContext}
use magpie_cpp.Mqtt.Requester.Close.{transport_close-IsFinished, wake_twice, IsFinished}
use magpie_cpp.Mqtt.Exchange.{call_run-responder_messages}
use magpie_cpp.Mqtt.Topic.{topic_matches}
use magpie_cpp.Mqtt.Requester.Outcomes.{call_run-returns_reply}

abbrev one_subscription : Connection String
one_subscription = record {
  subscriptions = ("a/b", record { qos = pos 1; callbacks = (1, "cb1") ∷ [] }) ∷ [];
  next_handle = 2;
  publish_qos = pos 1;
  subscribe_qos = pos 0;
  publish_retain = false;
}

abbrev offline : Session String
offline = record { connection = one_subscription; under_way = []; broker = none }

-- Calls of the client arrive late, but in order, and one comes to nothing as the connection is lost.
abbrev history : List (Event String)
history =
    connected
    ∷ arrives 0 false
    ∷ add "a/b" "cb2" (negsuc 0)
    ∷ remove "a/b" 1
    ∷ add "d" "cb4" (pos 1)
    ∷ arrives 0 false
    ∷ connection_lost
    ∷ add "c/#" "cb3" (pos 2)
    ∷ arrives 0 false
    ∷ connected
    ∷ []

session_run-SessionIsSynced_example : SessionIsSynced (session_run offline history)
unfolding Map.find Map.set session_step
session_run-SessionIsSynced_example =
    session_run-SessionIsSynced offline history
      (
        refl,
        ((refl, refl), (tt, (tt, (tt, ((refl, refl), (tt, (tt, ((refl, refl), (refl, tt))))))))),
      )
      (record { distinct = (refl, tt); in_step = tt })

-- Two threads remove and add a filter, and their calls arrive in the other order: the filter is
-- registered, and the broker does not hold it.
abbrev overtaken : Session String
overtaken = session_run offline (
    connected
    ∷ arrives 0 false
    ∷ remove "a/b" 1
    ∷ add "a/b" "cb2" (pos 0)
    ∷ arrives 1 false
    ∷ arrives 0 false
    ∷ [])

overtaken_test : overtaken.broker ≡ some []
unfolding session_run Map.find Map.set Map.erase apply_call
overtaken_test = refl

abbrev requester : CallTable
requester = record { name = "client"; closing = false; calls = [] }

abbrev ctx : ClientContext
ctx = record { reply_to = "magpie/rpc/x/rep"; rid = "r1" }

-- Another call starts and leaves meanwhile, and a foreign message comes; the latest event is first.
abbrev events : List CallEvent
events =
    woken false
    ∷ message (reply_envelope ctx (string "pong"))
    ∷ other_left "r2"
    ∷ woken false
    ∷ message (ack_envelope ctx)
    ∷ message null
    ∷ other_started "r2"
    ∷ []

call_run-returns_reply_example :
    Heard "r1" (ack_reply true) events × Heard "r1" (payload_reply (string "pong")) events
unfolding call_run call_step reply_envelope ack_envelope Value.set Map.set Map.find read_reply
    read_dict Value.find
call_run-returns_reply_example =
    call_run-returns_reply "r1" requester events (string "pong")
      (tt, (tt, (refl, (tt, (tt, (tt, (refl, tt))))))) refl

abbrev waiting : CallTable
waiting = record requester { calls = ("r1", new_pending) ∷ [] }

transport_close-IsFinished_example :
    IsFinished (wake_twice "r1" (waiting_ack, transport_close waiting)).0
unfolding Map.find
transport_close-IsFinished_example =
    transport_close-IsFinished "r1" waiting_ack waiting new_pending refl refl

abbrev decode : List ℕ → Result Value
decode bytes = ok (request_envelope "r1" "magpie/rpc/x/rep" (string "ping"))

abbrev responder : MqttResponder
responder = record {
  name = "server";
  req_closed = false;
  req_queue = ("echo/rpc/req", 1 ∷ []) ∷ [];
}

call_run-responder_messages_example :
    ((call_run ctx.rid requester (
        woken false
        ∷ woken false
        ∷ message (reply_envelope ctx null)
        ∷ message (ack_envelope ctx)
        ∷ [])).0
      ≡ finished (ok null))
    × ((call_run ctx.rid requester (
          woken false
          ∷ woken false
          ∷ message (ack_envelope ctx)
          ∷ message (reply_envelope ctx null)
          ∷ [])).0
        ≡ finished (ok null))
call_run-responder_messages_example = call_run-responder_messages requester ctx null false false

-- Where the matching departs from section 4.7 of the MQTT standard.
parent_topic : topic_matches "sport/#" "sport" ≡ false
unfolding topic_matches
parent_topic = refl

empty_level : topic_matches "a/+" "a/" ≡ false
unfolding topic_matches
empty_level = refl

system_topic : topic_matches "#" "$SYS/x" ≡ true
unfolding topic_matches
system_topic = refl
