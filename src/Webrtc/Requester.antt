-- ===== src/Webrtc/Requester.antt =====
-- WebRtcRpcRequester, src/transport/webrtc/webrtc_rpc_requester.cpp. Its pending_ is a table of calls
-- like that of the requester over MQTT; `callbacks` holds the request ids that it has registered with
-- the connection.
use magpie_cpp.Value
use magpie_cpp.Prelude.Map
use magpie_cpp.Prelude.{
  ◌==◌, ◌&&◌, not, ◌≡◌, ◌<>◌, if◌then◌else◌, ◌∷◌, Bool, Option, String, true, some, refl, none, [],
}
use magpie_cpp.Prelude.Result.{
  Exception, what, timeout_error, throw, std_error, reply_timeout, ok, ack_timeout,
}
use magpie_cpp.Value.{Value, string, empty, dict}
use magpie_cpp.Mqtt.Requester.{
  PendingCall, update_call, Phase, transport_close, text_of, store_call, register_call,
  unregister_call, CallTable, waiting_reply, waiting_ack, finished,
}
use magpie_cpp.Prelude.Map.{Map}

pub record WebrtcRequester : Type 0 where
  pub table : CallTable
  pub service_name : String
  pub callbacks : Map (Unit {0})

-- The request envelope.
unfoldable pub webrtc_envelope : String → String → Value → Value
webrtc_envelope service rid request = dict (
    Value.set "payload" request (
      Value.set "rid" (string rid)
        (Value.set "service" (string service) (Value.set "type" (string "rpc_req") empty))))

-- pending_.erase(rid) and removeRpcReplyCallback(rid)
unfoldable pub drop_call : String → WebrtcRequester → WebrtcRequester
unfolding unregister_call Map.erase
drop_call rid r = record r {
  table = unregister_call rid r.table;
  callbacks = Map.erase rid r.callbacks;
}

-- pending_[rid] = pending and addRpcReplyCallback(rid, …)
unfoldable pub add_call : String → WebrtcRequester → WebrtcRequester
unfolding register_call Map.set
add_call rid r = record r {
  table = register_call rid r.table;
  callbacks = Map.set rid tt r.callbacks;
}

unfoldable pub after_data : String → Option Exception → WebrtcRequester → Phase × WebrtcRequester
unfolding drop_call what
after_data rid none r = (waiting_ack, r)
after_data rid (some e) r = elim (what e) [
  | none ↦ (finished (throw e), r)
  | some reason ↦ (
    finished (throw (std_error (r.table.name <> ": sendData failed: " <> reason))),
    drop_call rid r,
  )
]

-- transportCall up to its first wait; `threw` is what sendData threw, if it did.
unfoldable pub begin_webrtc_call :
    String → Option Exception → WebrtcRequester → Phase × WebrtcRequester
unfolding after_data add_call
begin_webrtc_call rid threw r =
    if r.table.closing
    then (finished (throw (std_error (r.table.name <> ": transport is closed"))), r)
    else after_data rid threw (add_call rid r)

-- The wait for the acknowledgement, each time the thread wakes. The texts leave out the seconds.
unfoldable pub webrtc_ack_wait : String → String → Bool → PendingCall → Phase
webrtc_ack_wait name service expired p =
    if not p.acked && p.error_msg == "" && not expired
    then waiting_ack
    else if not p.acked
    then (if not (p.error_msg == "")
        then finished (throw (std_error p.error_msg))
        else finished
            (throw (timeout_error ack_timeout (name <> ": no ACK from '" <> service <> "'"))))
    else waiting_reply

unfoldable pub webrtc_reply_wait : String → String → Bool → PendingCall → Phase
webrtc_reply_wait name service expired p =
    if not p.replied && p.error_msg == "" && not expired
    then waiting_reply
    else if not p.replied
    then (if not (p.error_msg == "")
        then finished (throw (std_error p.error_msg))
        else finished
            (throw (timeout_error reply_timeout (name <> ": no reply from '" <> service <> "'"))))
    else finished (ok p.reply_payload)

-- What transportCall does as it leaves.
unfoldable pub leave_webrtc : String → Phase → WebrtcRequester → Phase × WebrtcRequester
unfolding drop_call
leave_webrtc rid (finished result) r = (finished result, drop_call rid r)
leave_webrtc rid phase r = (phase, r)

unfoldable pub take_payload : String → Option Value → PendingCall → PendingCall
take_payload name (some v) p = record p { reply_payload = v; replied = true }
take_payload name none p = record p {
  error_msg = name <> ": rpc_rep missing payload";
  replied = true;
}

unfoldable pub take_kind : String → String → Option Value → PendingCall → PendingCall
unfolding take_payload
take_kind name kind payload p =
    if not p.registered
    then p
    else if kind == "rpc_ack"
    then record p { acked = true }
    else if kind == "rpc_rep"
    then take_payload name payload p
    else p

unfoldable pub deliver_kind : Option String → Option String → Option Value → CallTable → CallTable
unfolding take_kind store_call update_call
deliver_kind (some kind) (some rid) payload r =
    store_call rid (update_call (take_kind r.name kind payload) (Map.find rid r.calls)) r
deliver_kind _ _ payload r = r

-- WebRtcRpcRequester::onReplyMessage
unfoldable pub on_webrtc_reply : Value → CallTable → CallTable
unfolding deliver_kind text_of Value.find
on_webrtc_reply (dict d) r =
    deliver_kind (text_of (Value.find "type" d)) (text_of (Value.find "rid" d))
      (Value.find "payload" d) r
on_webrtc_reply _ r = r

-- The callbacks that failAllPending leaves: those of the ids that pending_ does not hold.
unfoldable pub erase_registered : Map PendingCall → Map (Unit {0}) → Map (Unit {0})
erase_registered [] callbacks = callbacks
erase_registered ((rid, p) ∷ calls) callbacks =
    erase_registered calls (if p.registered then Map.erase rid callbacks else callbacks)

-- WebRtcRpcRequester::transportClose
unfoldable pub close_webrtc : WebrtcRequester → WebrtcRequester
unfolding transport_close erase_registered
close_webrtc r = record r {
  table = transport_close r.table;
  callbacks = erase_registered r.table.calls r.callbacks;
}

-- A registered call that has its acknowledgement and is sent a reply without a payload returns the
-- payload it had, null, and not the error that onReplyMessage stores.
pub webrtc_reply_wait-missing_payload :
    (name service : String) (expired : Bool) (p : PendingCall)
    → p.registered ≡ true
    → webrtc_reply_wait name service expired (take_kind name "rpc_rep" none p)
      ≡ finished (ok p.reply_payload)
unfolding webrtc_reply_wait take_kind take_payload
webrtc_reply_wait-missing_payload name service expired p e = simp e refl
