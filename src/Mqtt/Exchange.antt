-- ===== src/Mqtt/Exchange.antt =====
-- A requester and a responder together: src/transport/mqtt/mqtt_rpc_requester.cpp and
-- src/transport/mqtt/mqtt_rpc_responder.cpp.

use magpie_cpp.Value
use magpie_cpp.Value.{Value, dict_laws}
use magpie_cpp.Prelude.{eq_refl, ◌∷◌, String, Bool, ℕ, List, ◌≡◌, true, some, refl, none, false, []}
use magpie_cpp.Mqtt.Requester.{
  CallTable, after_reply_wait, after_ack_wait, leave, wake, take_reply, take_if_registered,
  update_call, store_call, is_true, request_envelope, register_call, text_of, deliver, reply_form,
  on_reply_message, read_dict, read_reply, finished, payload_reply, ack_reply,
}
use magpie_cpp.Prelude.Result.{Result, ok}
use magpie_cpp.Mqtt.Requester.Calls.{call_step, call_run, woken, message}
use magpie_cpp.Mqtt.Responder.{
  MqttResponder, any_field, string_field, ClientContext, acknowledge, read_request, read_envelope,
  deserialized, reply_envelope, ack_envelope, receive_woken, transport_recv,
}
use magpie_cpp.Prelude.Map.{map_laws}

-- The responder takes from a request's envelope what the requester put there, and acknowledges it
-- to the requester's reply topic.
pub transport_recv-request_envelope :
    (deserialize : List ℕ → Result Value) (expired : Bool) (r : MqttResponder)
    (topic rid reply_topic : String) (payload : List ℕ) (request : Value)
    (rest : List (String × List ℕ))
    → r.req_closed ≡ false
    → r.req_queue ≡ ((topic, payload) ∷ rest)
    → deserialize payload ≡ ok (request_envelope rid reply_topic request)
    → transport_recv deserialize none expired r
      ≡ some (record {
        outcome = ok (request, record { reply_to = reply_topic; rid = rid });
        sent = (reply_topic, ack_envelope (record { reply_to = reply_topic; rid = rid })) ∷ [];
        responder = record r { req_queue = rest };
      })
unfolding transport_recv receive_woken deserialized read_envelope read_request request_envelope
    acknowledge string_field any_field Value.set
transport_recv-request_envelope deserialize expired r topic rid reply_topic payload request rest
      is_open queued read =
    rw (is_open, queued, read) refl

-- The requester reads the acknowledgement and the reply as such.
read_reply-ack_envelope :
    (ctx : ClientContext) → read_reply (ack_envelope ctx) ≡ some (ctx.rid, ack_reply true)
unfolding read_reply ack_envelope read_dict reply_form text_of is_true Value.find Value.set
read_reply-ack_envelope ctx = refl

read_reply-reply_envelope :
    (ctx : ClientContext) (v : Value)
    → read_reply (reply_envelope ctx v) ≡ some (ctx.rid, payload_reply v)
unfolding read_reply reply_envelope read_dict reply_form text_of is_true Value.find Value.set
read_reply-reply_envelope ctx v = refl

-- The two messages that the responder publishes for a request give the requester's call its
-- result, in whichever order they arrive and whatever deadline has passed by then.
pub call_run-responder_messages :
    (r : CallTable) (ctx : ClientContext) (v : Value) (b c : Bool)
    → ((call_run ctx.rid r
          (woken c ∷ woken b ∷ message (reply_envelope ctx v) ∷ message (ack_envelope ctx) ∷ [])).0
        ≡ finished (ok v))
      × ((call_run ctx.rid r (
            woken c ∷ woken b ∷ message (ack_envelope ctx) ∷ message (reply_envelope ctx v) ∷ [])).0
          ≡ finished (ok v))
unfolding call_run call_step on_reply_message deliver register_call store_call update_call
    take_if_registered take_reply wake leave after_ack_wait after_reply_wait
call_run-responder_messages r ctx v b c = (
  simp (map_laws, read_reply-ack_envelope, read_reply-reply_envelope, eq_refl) refl,
  simp (map_laws, read_reply-ack_envelope, read_reply-reply_envelope, eq_refl) refl,
)
