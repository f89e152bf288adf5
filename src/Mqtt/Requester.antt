-- ===== src/Mqtt/Requester.antt =====
-- MqttRpcRequester, src/transport/mqtt/mqtt_rpc_requester.cpp. transportCall blocks its thread
-- while the client library's thread runs onReplyMessage, so it is cut where it waits: an entry of
-- `calls` is the PendingCall that its caller and pending_ share.
pub mod Calls
pub mod Outcomes
pub mod Close
use magpie_cpp.Value
use mathlib.Core.Option
use magpie_cpp.Prelude.Map
use magpie_cpp.Prelude.{
  ◌==◌, not, ◌∷◌, if◌then◌else◌, map, ◌<>◌, Option, String, Bool, true, some, none, false, [],
}
use magpie_cpp.Prelude.Result.{
  Exception, what, Result, unknown, timeout_error, throw, std_error, reply_timeout, ok, ack_timeout,
}
use magpie_cpp.Value.{Dict, Value, string, null, empty, dict, bool}
use magpie_cpp.Prelude.Map.{Map}

-- PendingCall, and whether pending_ still holds it.
pub record PendingCall : Type 0 where
  pub acked : Bool
  pub replied : Bool
  pub reply_payload : Value
  pub error_msg : String
  pub registered : Bool

-- What transportCall and the thread that receives share: name(), closing_ and pending_. The requesters
-- over ZeroMQ and WebRTC have the same members.
pub record CallTable : Type 0 where
  pub name : String
  pub closing : Bool
  pub calls : Map PendingCall

-- Where the thread of transportCall waits, or how it left.
pub data Phase : Type 0 where
  waiting_ack waiting_reply : Phase
  finished : Result Value → Phase

abbrev pub new_pending : PendingCall
new_pending = record {
  acked = false;
  replied = false;
  reply_payload = null;
  error_msg = "";
  registered = true;
}

-- The request envelope.
unfoldable pub request_envelope : String → String → Value → Value
request_envelope rid reply_topic request = dict (
    Value.set "payload" request
      (Value.set "reply_to" (string reply_topic) (Value.set "rid" (string rid) empty)))

-- pending_[rid] = pending
unfoldable pub register_call : String → CallTable → CallTable
register_call rid r = record r { calls = Map.set rid new_pending r.calls }

unfoldable pub update_call : (PendingCall → PendingCall) → Option PendingCall → Option PendingCall
update_call f none = none
update_call f (some p) = some (f p)

unfoldable pub store_call : String → Option PendingCall → CallTable → CallTable
store_call rid none r = r
store_call rid (some p) r = record r { calls = Map.set rid p r.calls }

-- pending_.erase(rid)
unfoldable pub unregister : PendingCall → PendingCall
unregister p = record p { registered = false }

unfoldable pub unregister_call : String → CallTable → CallTable
unfolding store_call update_call unregister
unregister_call rid r = store_call rid (update_call unregister (Map.find rid r.calls)) r

-- transportCall up to its first wait; `published` is what the connection's publish threw, if it did.
unfoldable pub begin_call : String → Option Exception → CallTable → Phase × CallTable
unfolding what
begin_call rid published r =
    if r.closing
    then (finished (throw (std_error (r.name <> ": transport is closed"))), r)
    else after_publish published
  where
    after_publish : Option Exception → Phase × CallTable
    after_publish none = (waiting_ack, register_call rid r)
    after_publish (some e) = failed (what e)
      where
        failed : Option String → Phase × CallTable
        failed none = (finished (throw unknown), register_call rid r)
        failed (some reason) = (
          finished (throw (std_error (r.name <> ": publish failed: " <> reason))),
          unregister_call rid (register_call rid r),
        )

-- The waits: the loop's test, once woken, and the code behind it. `expired` says that the deadline
-- has passed.
unfoldable pub after_ack_wait : String → Bool → PendingCall → Phase
after_ack_wait name expired p =
    if p.acked
    then waiting_reply
    else if not (p.error_msg == "")
    then finished (throw (std_error p.error_msg))
    else if expired
    then finished (throw (timeout_error ack_timeout (name <> ": no ack received")))
    else waiting_ack

unfoldable pub after_reply_wait : String → Bool → PendingCall → Phase
after_reply_wait name expired p =
    if p.replied
    then finished (ok p.reply_payload)
    else if not (p.error_msg == "")
    then finished (throw (std_error p.error_msg))
    else if expired
    then finished (throw (timeout_error reply_timeout (name <> ": no reply received")))
    else waiting_reply

-- What transportCall does to pending_ as it leaves.
unfoldable pub leave : String → Phase → CallTable → Phase × CallTable
unfolding unregister_call
leave rid (finished result) r = (finished result, unregister_call rid r)
leave rid phase r = (phase, r)

unfoldable pub wake : String → Bool → Phase → Option PendingCall → CallTable → Phase × CallTable
unfolding leave after_ack_wait after_reply_wait
wake rid expired waiting_ack (some p) r = leave rid (after_ack_wait r.name expired p) r
wake rid expired waiting_reply (some p) r = leave rid (after_reply_wait r.name expired p) r
wake rid expired phase p r = (phase, r)

-- The three forms of a message, of which the last is none that is known.
pub data Reply : Type 0 where
  ack_reply : Bool → Reply
  payload_reply : Value → Reply
  other_reply : Reply

unfoldable pub is_true : Value → Bool
is_true (bool b) = b
is_true _ = false

unfoldable pub reply_form : Option Value → Option Value → Reply
unfolding is_true
reply_form (some ack) payload = ack_reply (is_true ack)
reply_form none (some payload) = payload_reply payload
reply_form none none = other_reply

unfoldable pub text_of : Option Value → Option String
text_of (some (string s)) = some s
text_of _ = none

unfoldable pub read_dict : Dict → Option (String × Reply)
unfolding Value.find reply_form text_of
read_dict d =
    Option.map (λ rid. (rid, reply_form (Value.find "ack" d) (Value.find "payload" d)))
      (text_of (Value.find "rid" d))

-- The message as onReplyMessage reads it, once it is deserialized.
unfoldable pub read_reply : Value → Option (String × Reply)
unfolding read_dict
read_reply (dict d) = read_dict d
read_reply _ = none

unfoldable pub take_reply : String → Reply → PendingCall → PendingCall
take_reply name (ack_reply true) p = record p { acked = true }
take_reply name (ack_reply false) p = record p { error_msg = name <> ": invalid ack received" }
take_reply name (payload_reply v) p = record p { reply_payload = v; replied = true }
take_reply name other_reply p = record p { error_msg = name <> ": invalid reply received" }

-- Only a registered call is found in pending_.
unfoldable pub take_if_registered : String → Reply → PendingCall → PendingCall
unfolding take_reply
take_if_registered name reply p = if p.registered then take_reply name reply p else p

unfoldable pub deliver : Option (String × Reply) → CallTable → CallTable
unfolding take_if_registered store_call update_call
deliver none r = r
deliver (some (rid, reply)) r =
    store_call rid (update_call (take_if_registered r.name reply) (Map.find rid r.calls)) r

-- MqttRpcRequester::onReplyMessage
unfoldable pub on_reply_message : Value → CallTable → CallTable
unfolding read_reply deliver
on_reply_message m r = deliver (read_reply m) r

unfoldable pub fail_call : String → PendingCall → PendingCall
fail_call err p =
    if p.registered
    then record p { registered = false; error_msg = if p.error_msg == "" then err else p.error_msg }
    else p

-- MqttRpcRequester::failAllPending
unfoldable pub fail_all : String → Map PendingCall → Map PendingCall
unfolding fail_call
fail_all err [] = []
fail_all err ((rid, p) ∷ m) = (rid, fail_call err p) ∷ fail_all err m

-- MqttRpcRequester::transportClose, but for the subscription.
unfoldable pub transport_close : CallTable → CallTable
unfolding fail_all
transport_close r = record r {
  closing = true;
  calls = fail_all (r.name <> ": transport closed") r.calls;
}
