-- ===== src/Zmq/Requester.antt =====
-- ZmqRpcRequester, src/transport/zmq/zmq_rpc_requester.cpp. Callers put serialized requests into the
-- control channel, which the I/O thread empties; only it sends to the DEALER socket and receives
-- from it. What zmq_poll, zmq_send and zmq_msg_recv report are arguments.
pub mod Waits
pub mod Order
pub mod Ends
use magpie_cpp.Prelude.Map
use magpie_cpp.Value
use magpie_cpp.Prelude.{
  ◌==◌, ◌&&◌, not, eqb, ◌∷◌, Option, ℕ, zero, suc, if◌then◌else◌, Bool, ◌<>◌, List, String, true,
  some, none, false, [],
}
use magpie_cpp.Prelude.Result.{
  Result, Exception, what, timeout_error, throw, std_error, reply_timeout, ok, ack_timeout,
}
use magpie_cpp.Value.{Value, string, empty, dict}
use magpie_cpp.Mqtt.Requester.{
  Phase, PendingCall, on_reply_message, fail_all, register_call, unregister_call, leave, CallTable,
  waiting_reply, waiting_ack, finished,
}
use magpie_cpp.Stream.{emplace_back}
use magpie_cpp.Prelude.Bytes.{same_bytes}

pub record ZmqRequester : Type 0 where
  pub table : CallTable
  pub control : List (List ℕ)
  pub forwarded : List (List ℕ)
  pub looping : Bool

-- The request envelope.
unfoldable pub zmq_envelope : String → Value → Value
zmq_envelope rid request = dict (Value.set "payload" request (Value.set "rid" (string rid) empty))

-- "__CLOSE__"
abbrev pub close_sentinel : List ℕ
close_sentinel = 95 ∷ 95 ∷ 67 ∷ 76 ∷ 79 ∷ 83 ∷ 69 ∷ 95 ∷ 95 ∷ []

-- sendToIo_, when it does not throw; sendCloseToIo_ sends the sentinel so. Each message comes from a
-- PUSH socket of its own, between which ZeroMQ keeps no order: the list stands for a bag, of which
-- `pull` takes any. The socket is closed with a linger of 0; `arrives` says whether the message got
-- through before.
unfoldable pub send_to_io : Bool → List ℕ → ZmqRequester → ZmqRequester
unfolding emplace_back
send_to_io arrives bytes r =
    if arrives then record r { control = emplace_back bytes r.control } else r

-- transportCall up to its first wait, with the serialized envelope and what sendToIo_ threw.
unfoldable pub after_send :
    Bool → String → List ℕ → Option Exception → ZmqRequester → Phase × ZmqRequester
unfolding send_to_io unregister_call what
after_send arrives rid bytes none r = (waiting_ack, send_to_io arrives bytes r)
after_send arrives rid bytes (some e) r = (
  finished (throw e),
  elim (what e) [ none ↦ r | some reason ↦ record r { table = unregister_call rid r.table } ],
)

unfoldable pub begin_zmq_call :
    Bool → String → List ℕ → Option Exception → ZmqRequester → Phase × ZmqRequester
unfolding after_send register_call
begin_zmq_call arrives rid bytes threw r =
    if r.table.closing
    then (finished (throw (std_error (r.table.name <> ": transport is closed"))), r)
    else after_send arrives rid bytes threw (record r { table = register_call rid r.table })

-- The wait for the acknowledgement, each time the thread wakes: the loop's test, the timeout behind
-- it, and the error behind that. `expired` says that there is a deadline and that it has passed.
unfoldable pub zmq_ack_wait : String → Bool → PendingCall → Phase
zmq_ack_wait name expired p =
    if not p.acked && p.error_msg == ""
    then (if expired
        then finished (throw (timeout_error ack_timeout (name <> ": no ack received")))
        else waiting_ack)
    else if not (p.error_msg == "") && not p.acked
    then finished (throw (std_error p.error_msg))
    else waiting_reply

unfoldable pub zmq_reply_wait : String → Bool → PendingCall → Phase
zmq_reply_wait name expired p =
    if not p.replied && p.error_msg == ""
    then (if expired
        then finished (throw (timeout_error reply_timeout (name <> ": no reply received")))
        else waiting_reply)
    else if not (p.error_msg == "") && not p.replied
    then finished (throw (std_error p.error_msg))
    else finished (ok p.reply_payload)

-- A waiting transportCall wakes, with its entry: one of its waits, behind which it leaves.
unfoldable pub zmq_wake : String → Bool → Phase → Option PendingCall → CallTable → Phase × CallTable
unfolding leave zmq_ack_wait zmq_reply_wait
zmq_wake rid expired waiting_ack (some p) r = leave rid (zmq_ack_wait r.name expired p) r
zmq_wake rid expired waiting_reply (some p) r = leave rid (zmq_reply_wait r.name expired p) r
zmq_wake rid expired phase p r = (phase, r)

-- failAllPending_
unfoldable pub fail_all_pending : String → ZmqRequester → ZmqRequester
unfolding fail_all
fail_all_pending err r = record r { table = record r.table { calls = fail_all err r.table.calls } }

-- The end of ioLoop_
unfoldable pub end_loop : ZmqRequester → ZmqRequester
unfolding fail_all_pending
end_loop r = fail_all_pending (r.table.name <> ": transport closed") (record r { looping = false })

unfoldable pub bring_forward : List ℕ → List (List ℕ) → List (List ℕ)
bring_forward bytes [] = bytes ∷ []
bring_forward bytes (next ∷ rest) = next ∷ bytes ∷ rest

-- zmq_msg_recv on the PULL socket: the k-th of the messages that are there comes first.
unfoldable pub pull : ℕ → List (List ℕ) → List (List ℕ)
unfolding bring_forward
pull k [] = []
pull zero (bytes ∷ rest) = bytes ∷ rest
pull (suc k) (bytes ∷ rest) = bring_forward bytes (pull k rest)

-- The part of a turn that handles one control message, if there is one: the flag says whether the
-- turn goes on.
unfoldable pub take_control : Bool → List (List ℕ) → ZmqRequester → Bool × ZmqRequester
unfolding same_bytes
take_control send_fails [] r = (true, r)
take_control send_fails (bytes ∷ rest) r =
    let taken : ZmqRequester = record r { control = rest } in
    if same_bytes bytes close_sentinel
    then (false, taken)
    else if send_fails
    then (false, fail_all_pending (r.table.name <> ": transport send failure") taken)
    else (true, record taken { forwarded = emplace_back bytes r.forwarded })

-- What the DEALER socket has for a turn: nothing, a message as it is deserialized, or one that
-- zmq_msg_recv fails on.
pub data DealerMessage : Type 0 where
  nothing_arrived receive_failed : DealerMessage
  arrived : Result Value → DealerMessage

-- The part that handles it.
unfoldable pub take_message : DealerMessage → ZmqRequester → ZmqRequester
unfolding on_reply_message end_loop
take_message (arrived (ok v)) r = record r { table = on_reply_message v r.table }
take_message (arrived (throw e)) r = r
take_message receive_failed r = if r.table.closing then end_loop r else r
take_message nothing_arrived r = r

-- What a turn of ioLoop_ meets: zmq_poll fails, zmq_msg_recv fails on the control socket, or neither
-- does, where the number says which control message is next, and the flag whether the zmq_send of it
-- fails.
pub data Poll : Type 0 where
  poll_failed : Poll
  control_failed : DealerMessage → Poll
  polled : ℕ → Bool → DealerMessage → Poll

unfoldable pub io_turn : Poll → ZmqRequester → ZmqRequester
unfolding end_loop take_control take_message pull
io_turn poll_failed r = end_loop r
io_turn (control_failed arrival) r = if r.table.closing then end_loop r else take_message arrival r
io_turn (polled k send_fails arrival) r =
    let (goes_on, r') = take_control send_fails (pull k r.control) r in
    if goes_on then take_message arrival r' else end_loop r'

-- A step of the I/O thread, as long as it runs.
unfoldable pub io_loop : Poll → ZmqRequester → ZmqRequester
unfolding io_turn
io_loop poll r = if r.looping then io_turn poll r else r

-- transportClose up to the join of the I/O thread, and behind it.
unfoldable pub request_close : Bool → ZmqRequester → ZmqRequester
unfolding send_to_io
request_close arrives r =
    send_to_io arrives close_sentinel (record r { table = record r.table { closing = true } })

unfoldable pub finish_close : ZmqRequester → ZmqRequester
unfolding fail_all_pending
finish_close r = fail_all_pending (r.table.name <> ": transport closed") r
