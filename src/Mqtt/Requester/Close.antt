-- ===== src/Mqtt/Requester/Close.antt =====
-- Calls that wait when the requester is closed: src/transport/mqtt/mqtt_rpc_requester.cpp.
use Prim.Native.String.compare
use Prim.Native.String.append
use magpie_cpp.Prelude.Map
use magpie_cpp.Prelude.{
  eq_refl, arith, none, Bool-cases, inr, inl, ◌<>◌, ◌≡◌, ◌==◌, String, true, some, refl, false,
}
use magpie_cpp.Mqtt.Requester.{
  register_call, unregister, store_call, unregister_call, begin_call, after_reply_wait, leave,
  update_call, fail_call, wake, waiting_reply, waiting_ack, PendingCall, CallTable, transport_close,
  after_ack_wait, Phase, finished,
}
use magpie_cpp.Mqtt.Requester.Calls.{find-fail_all, call_step, woken}
use magpie_cpp.Prelude.Result.{what, Exception}
use magpie_cpp.Prelude.Map.{map_laws}

-- transportCall is over.
abbrev pub IsFinished : Phase → Type 0
IsFinished (finished result) = Unit
IsFinished _ = ⊥

pub not_empty : (s t : String) → (t == "") ≡ false → ((s <> t) == "") ≡ false
not_empty String.[] t h = rw append.nil h
not_empty (String.◌∷◌ c s) t h = rw (append.cons, compare.cons-nil) refl

-- The thread wakes, and wakes again.
unfoldable pub wake_twice : String → Phase × CallTable → Phase × CallTable
unfolding call_step
wake_twice rid s = call_step rid (woken false) (call_step rid (woken false) s)

pub wake_twice-IsFinished :
    (rid : String) (phase : Phase) (r : CallTable) (p : PendingCall)
    → Map.find rid r.calls ≡ some p
    → (p.error_msg == "") ≡ false
    → IsFinished (wake_twice rid (phase, r)).0
unfolding wake_twice call_step wake leave after_ack_wait after_reply_wait
wake_twice-IsFinished rid (finished result) r p found failed = tt
wake_twice-IsFinished rid waiting_reply r p found failed = elim (Bool-cases p.replied) [
  | inl replied ↦ simp (found, replied) tt
  | inr silent ↦ simp (found, silent, failed) tt
]
wake_twice-IsFinished rid waiting_ack r p found failed = elim (Bool-cases p.acked) [
  | inl acked ↦ elim (Bool-cases p.replied) [
    | inl replied ↦ simp (found, acked, replied) tt
    | inr silent ↦ simp (found, acked, silent, failed) tt
  ]
  | inr silent ↦ simp (found, silent, failed) tt
]

pub fail_call-error_msg :
    (err : String) (p : PendingCall)
    → p.registered ≡ true
    → (err == "") ≡ false
    → ((fail_call err p).error_msg == "") ≡ false
unfolding fail_call
fail_call-error_msg err p here bad = elim (Bool-cases (p.error_msg == "")) [
  | inl none_yet ↦ simp (here, none_yet, bad) refl
  | inr failed ↦ simp (here, failed) refl
]

-- A close wakes no caller in vain: whatever a registered call has heard so far, and with no
-- deadline passed, its transportCall returns or throws by the second time that its thread wakes
-- after transportClose.
pub transport_close-IsFinished :
    (rid : String) (phase : Phase) (r : CallTable) (p : PendingCall)
    → Map.find rid r.calls ≡ some p
    → p.registered ≡ true
    → IsFinished (wake_twice rid (phase, transport_close r)).0
unfolding transport_close update_call
transport_close-IsFinished rid phase r p found here =
    wake_twice-IsFinished rid phase (transport_close r)
      (fail_call (r.name <> ": transport closed") p)
      (rw (find-fail_all (r.name <> ": transport closed") rid r.calls, found) refl)
      (fail_call-error_msg _ p here (not_empty r.name ": transport closed" refl))

-- A call whose publish threw a standard exception throws, and an entry that is then stored under
-- its identifier, which was new, is no longer in pending_.
pub begin_call-not_sent :
    (rid reason : String) (e : Exception) (r : CallTable) (p : PendingCall)
    → what e ≡ some reason
    → Map.find rid r.calls ≡ none
    → Map.find rid (begin_call rid (some e) r).1.calls ≡ some p
    → IsFinished (begin_call rid (some e) r).0 × (p.registered ≡ false)
unfolding begin_call unregister_call store_call update_call unregister register_call
begin_call-not_sent rid reason e r p known new = elim (Bool-cases r.closing) [
  | inl shut ↦ simp shut (λ found. (tt, ground (arith, new, found)))
  | inr running ↦ simp (running, known, map_laws, eq_refl) (λ found. (tt, ground (arith, found)))
]
