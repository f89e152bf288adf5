-- ===== src/Zmq/Requester/Ends.antt =====
-- The calls that wait when the I/O thread ends: src/transport/zmq/zmq_rpc_requester.cpp.
use magpie_cpp.Prelude.Map
use magpie_cpp.Prelude.{
  if◌then◌else◌, ◌<>◌, ◌⊎◌, ◌==◌, ◌∙◌, String, Bool-cases, arith, some, inr, inl, false, Bool, ◌≡◌,
  ◌∷◌, ℕ, List, true, refl, [],
}
use magpie_cpp.Zmq.Requester.{
  DealerMessage, receive_failed, nothing_arrived, control_failed, arrived, close_sentinel,
  poll_failed, pull, zmq_wake, zmq_ack_wait, zmq_reply_wait, fail_all_pending, end_loop,
  take_message, take_control, io_turn, Poll, ZmqRequester, polled,
}
use magpie_cpp.Prelude.Bytes.{same_bytes}
use magpie_cpp.Prelude.Result.{throw, ok}
use magpie_cpp.Mqtt.Requester.{
  CallTable, waiting_ack, waiting_reply, finished, leave, PendingCall, Phase, update_call,
  fail_call,
}
use magpie_cpp.Mqtt.Requester.Close.{not_empty, fail_call-error_msg, IsFinished}
use magpie_cpp.Mqtt.Requester.Calls.{find-fail_all}

-- The thread of a ZeroMQ call wakes, with no deadline passed, and wakes again.
unfoldable pub zmq_woken : String → Phase × CallTable → Phase × CallTable
unfolding zmq_wake Map.find
zmq_woken rid (phase, r) = zmq_wake rid false phase (Map.find rid r.calls) r

unfoldable pub zmq_wake_twice : String → Phase × CallTable → Phase × CallTable
unfolding zmq_woken
zmq_wake_twice rid s = zmq_woken rid (zmq_woken rid s)

zmq_wake_twice-IsFinished :
    (rid : String) (phase : Phase) (r : CallTable) (p : PendingCall)
    → Map.find rid r.calls ≡ some p
    → (p.error_msg == "") ≡ false
    → IsFinished (zmq_wake_twice rid (phase, r)).0
unfolding zmq_wake_twice zmq_woken zmq_wake leave zmq_ack_wait zmq_reply_wait
zmq_wake_twice-IsFinished rid (finished result) r p found failed = tt
zmq_wake_twice-IsFinished rid waiting_reply r p found failed = elim (Bool-cases p.replied) [
  | inl replied ↦ simp (found, replied, failed) tt
  | inr silent ↦ simp (found, silent, failed) tt
]
zmq_wake_twice-IsFinished rid waiting_ack r p found failed = elim (Bool-cases p.acked) [
  | inl acked ↦ elim (Bool-cases p.replied) [
    | inl replied ↦ simp (found, acked, replied, failed) tt
    | inr silent ↦ simp (found, acked, silent, failed) tt
  ]
  | inr silent ↦ simp (found, silent, failed) tt
]

-- A call that is in pending_ or has an error.
abbrev Doomed : PendingCall → Type 0
Doomed p = (p.registered ≡ true) ⊎ ((p.error_msg == "") ≡ false)

fail_call-Doomed :
    (err : String) (p : PendingCall)
    → (err == "") ≡ false
    → Doomed p
    → ((fail_call err p).error_msg == "") ≡ false
unfolding fail_call
fail_call-Doomed err p text (inl here) = fail_call-error_msg err p here text
fail_call-Doomed err p text (inr failed) = ground arith

take_control-Doomed :
    (send_fails : Bool) (queue : List (List ℕ)) (rid : String) (r : ZmqRequester) (p : PendingCall)
    → Map.find rid r.table.calls ≡ some p
    → Doomed p
    → (q : PendingCall) × (Map.find rid (take_control send_fails queue r).1.table.calls ≡ some q)
      × Doomed q
unfolding take_control fail_all_pending update_call
take_control-Doomed send_fails [] rid r p found doomed = (p, found, doomed)
take_control-Doomed send_fails (bytes ∷ rest) rid r p found doomed =
    elim (Bool-cases (same_bytes bytes close_sentinel)) [
      | inl same ↦ (p, simp same found, doomed)
      | inr other ↦ elim (Bool-cases send_fails) [
        | inl fails ↦ (
          fail_call (r.table.name <> ": transport send failure") p,
          simp (other, fails, find-fail_all, found) refl,
          inr (
              fail_call-Doomed _ p (not_empty r.table.name ": transport send failure" refl) doomed),
        )
        | inr goes ↦ (p, simp (other, goes) found, doomed)
      ]
    ]

end_loop-IsFinished :
    (rid : String) (phase : Phase) (r : ZmqRequester) (p : PendingCall)
    → Map.find rid r.table.calls ≡ some p
    → Doomed p
    → IsFinished (zmq_wake_twice rid (phase, (end_loop r).table)).0
unfolding end_loop fail_all_pending update_call
end_loop-IsFinished rid phase r p found doomed =
    zmq_wake_twice-IsFinished rid phase (end_loop r).table
      (fail_call (r.table.name <> ": transport closed") p)
      (rw (find-fail_all (r.table.name <> ": transport closed") rid r.table.calls, found) refl)
      (fail_call-Doomed _ p (not_empty r.table.name ": transport closed" refl) doomed)

looping-take_control :
    (send_fails : Bool) (queue : List (List ℕ)) (r : ZmqRequester)
    → (take_control send_fails queue r).1.looping ≡ r.looping
unfolding take_control fail_all_pending
looping-take_control send_fails [] r = refl
looping-take_control send_fails (bytes ∷ rest) r = ground arith

-- The call is over if the thread has ended.
abbrev Leaves : String → Phase → ZmqRequester → Type 0
Leaves rid phase r = r.looping ≡ false → IsFinished (zmq_wake_twice rid (phase, r.table)).0

if-Leaves :
    (rid : String) (phase : Phase) (b : Bool) (x y : ZmqRequester)
    → Leaves rid phase x
    → Leaves rid phase y
    → Leaves rid phase (if b then x else y)
if-Leaves rid phase true x y left right = left
if-Leaves rid phase false x y left right = right

take_message-Leaves :
    (arrival : DealerMessage) (rid : String) (phase : Phase) (r : ZmqRequester) (p : PendingCall)
    → Map.find rid r.table.calls ≡ some p
    → Doomed p
    → r.looping ≡ true
    → Leaves rid phase (take_message arrival r)
unfolding take_message
take_message-Leaves nothing_arrived rid phase r p found doomed ran = λ out. cc
take_message-Leaves (arrived (ok v)) rid phase r p found doomed ran = λ out. cc
take_message-Leaves (arrived (throw e)) rid phase r p found doomed ran = λ out. cc
take_message-Leaves receive_failed rid phase r p found doomed ran =
    if-Leaves rid phase r.table.closing (end_loop r) r
      (λ out. end_loop-IsFinished rid phase r p found doomed) (λ out. cc)

-- However the I/O thread ends, by a close or by a failure of zmq_poll, zmq_msg_recv or zmq_send: a
-- call that was registered then, whatever it had heard, returns or throws by the second time that
-- its thread wakes.
pub io_turn-IsFinished :
    (poll : Poll) (rid : String) (phase : Phase) (r : ZmqRequester) (p : PendingCall)
    → Map.find rid r.table.calls ≡ some p
    → p.registered ≡ true
    → (io_turn poll r).looping ≡ false
    → r.looping ≡ true
    → IsFinished (zmq_wake_twice rid (phase, (io_turn poll r).table)).0
unfolding io_turn
io_turn-IsFinished poll_failed rid phase r p found here =
    λ out ran. end_loop-IsFinished rid phase r p found (inl here)
io_turn-IsFinished (control_failed arrival) rid phase r p found here = λ out ran.
    if-Leaves rid phase r.table.closing (end_loop r) (take_message arrival r)
      (λ halted. end_loop-IsFinished rid phase r p found (inl here))
      (take_message-Leaves arrival rid phase r p found (inl here) ran) out
io_turn-IsFinished (polled k send_fails arrival) rid phase r p found here =
    let next : Bool × ZmqRequester = take_control send_fails (pull k r.control) r in
    let kept : next.1.looping ≡ r.looping = looping-take_control send_fails (pull k r.control) r in
    let (q, still, doomed) =
      take_control-Doomed send_fails (pull k r.control) rid r p found (inl here) in
    elim (Bool-cases (take_control send_fails (pull k r.control) r).0) [
      | inl goes ↦
          simp goes (λ out ran.
            take_message-Leaves arrival rid phase next.1 q still doomed (kept ∙ ran) out)
      | inr halts ↦ simp halts (λ out ran. end_loop-IsFinished rid phase next.1 q still doomed)
    ]
