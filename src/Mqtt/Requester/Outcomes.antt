-- ===== src/Mqtt/Requester/Outcomes.antt =====
-- How transportCall ends: src/transport/mqtt/mqtt_rpc_requester.cpp.
use magpie_cpp.Prelude.Map
use magpie_cpp.Prelude.{
  arith, if◌then◌else◌, ◌<>◌, ◌==◌, Bool-cases, eq_refl, ◌∷◌, ◌≡◌, Option, All, Bool, List, String,
  true, some, refl, none, inr, inl, false, [],
}
use magpie_cpp.Mqtt.Requester.{
  read_reply, new_pending, PendingCall, update_call, Phase, CallTable, unregister, wake,
  after_reply_wait, after_ack_wait, leave, waiting_reply, waiting_ack, payload_reply, finished,
  ack_reply,
}
use magpie_cpp.Prelude.Result.{Result, timeout_error, throw, reply_timeout, ok, ack_timeout}
use magpie_cpp.Mqtt.Requester.Calls.{
  weaken_entry, fail_call-EntryHolds, find-fail_all, find-store_call, PhaseHolds,
  deliver-EntryHolds, CallHolds, EntryHolds, Heard, OfOthers, CallEvent, call_run, call_step, woken,
  transport_closed, other_started, other_left, message,
}
use magpie_cpp.Value.{Value}

abbrev SystemHolds : String → List CallEvent → Phase × CallTable → Type 0
SystemHolds rid es (phase, r) = EntryHolds rid es phase (Map.find rid r.calls)

leave-SystemHolds :
    (rid : String) (es : List CallEvent) (old phase : Phase) (p : PendingCall) (r : CallTable)
    → CallHolds rid es old p
    → Map.find rid r.calls ≡ some p
    → PhaseHolds rid es false phase
    → SystemHolds rid es (leave rid phase r)
unfolding leave unregister update_call
leave-SystemHolds rid es old waiting_ack p r h found phase =
    rw found (record { acked_heard = h.acked_heard; reply_heard = h.reply_heard; phase_holds = tt })
leave-SystemHolds rid es old waiting_reply p r h found phase =
    rw found
      (record { acked_heard = h.acked_heard; reply_heard = h.reply_heard; phase_holds = phase })
leave-SystemHolds rid es old (finished result) p r h found phase =
    rw (find-store_call unregister rid rid r, eq_refl rid, found) (left result phase)
  where
    left :
        (x : Result Value)
        → PhaseHolds rid es false (finished x)
        → CallHolds rid es (finished x) (unregister p)
    left (ok v) q = record {
      acked_heard = h.acked_heard;
      reply_heard = h.reply_heard;
      phase_holds = q;
    }
    left (throw e) q = record {
      acked_heard = h.acked_heard;
      reply_heard = h.reply_heard;
      phase_holds = q;
    }

after_ack_wait-PhaseHolds :
    (rid name : String) (expired : Bool) (es : List CallEvent) (old : Phase) (p : PendingCall)
    → CallHolds rid es old p
    → PhaseHolds rid es false (after_ack_wait name expired p)
unfolding after_ack_wait
after_ack_wait-PhaseHolds rid name expired es old p h = elim (Bool-cases p.acked) [
  | inl acked ↦ simp acked (h.acked_heard acked)
  | inr silent ↦ elim (Bool-cases (p.error_msg == "")) [
    | inl fine ↦
        simp (silent, fine)
          (elim expired
            as (λ b. PhaseHolds rid es false (
              if b
              then finished (throw (timeout_error ack_timeout (name <> ": no ack received")))
              else waiting_ack)) [ true ↦ refl | false ↦ tt ])
    | inr failed ↦ simp (silent, failed) refl
  ]
]

after_reply_wait-PhaseHolds :
    (rid name : String) (expired : Bool) (es : List CallEvent) (p : PendingCall)
    → CallHolds rid es waiting_reply p
    → PhaseHolds rid es false (after_reply_wait name expired p)
unfolding after_reply_wait
after_reply_wait-PhaseHolds rid name expired es p h = elim (Bool-cases p.replied) [
  | inl replied ↦ simp replied (h.phase_holds, h.reply_heard replied, refl)
  | inr silent ↦ elim (Bool-cases (p.error_msg == "")) [
    | inl fine ↦
        simp (silent, fine)
          (elim expired
            as (λ b. PhaseHolds rid es false (
              if b
              then finished (throw (timeout_error reply_timeout (name <> ": no reply received")))
              else waiting_reply)) [ true ↦ refl | false ↦ h.phase_holds ])
    | inr failed ↦ simp (silent, failed) refl
  ]
]

wake-SystemHolds :
    (rid : String) (expired : Bool) (es : List CallEvent) (phase : Phase) (o : Option PendingCall)
    (r : CallTable)
    → Map.find rid r.calls ≡ o
    → EntryHolds rid es phase o
    → SystemHolds rid es (wake rid expired phase o r)
unfolding wake
wake-SystemHolds rid expired es phase none r found h = elim h [ ]
wake-SystemHolds rid expired es waiting_ack (some p) r found h =
    leave-SystemHolds rid es waiting_ack _ p r h found
      (after_ack_wait-PhaseHolds rid r.name expired es waiting_ack p h)
wake-SystemHolds rid expired es waiting_reply (some p) r found h =
    leave-SystemHolds rid es waiting_reply _ p r h found
      (after_reply_wait-PhaseHolds rid r.name expired es p h)
wake-SystemHolds rid expired es (finished x) (some p) r found h = rw found h

call_step-SystemHolds :
    (rid : String) (e : CallEvent) (es : List CallEvent) (phase : Phase) (r : CallTable)
    → OfOthers rid e
    → SystemHolds rid es (phase, r)
    → SystemHolds rid (e ∷ es) (call_step rid e (phase, r))
unfolding call_step
call_step-SystemHolds rid (message m) es phase r others h =
    deliver-EntryHolds rid m es phase r (read_reply m) refl h
call_step-SystemHolds rid transport_closed es phase r others h =
    rw (find-fail_all (r.name <> ": transport closed") rid r.calls)
      (fail_call-EntryHolds _ rid transport_closed es phase (Map.find rid r.calls) h)
call_step-SystemHolds rid (woken expired) es phase r others h =
    wake-SystemHolds rid expired (woken expired ∷ es) phase (Map.find rid r.calls) r refl
      (weaken_entry rid (woken expired) es phase (Map.find rid r.calls) h)
call_step-SystemHolds rid (other_started other) es phase r others h =
    rw (Map.find-set other rid new_pending r.calls, others)
      (weaken_entry rid (other_started other) es phase (Map.find rid r.calls) h)
call_step-SystemHolds rid (other_left other) es phase r others h =
    rw (find-store_call unregister other rid r, others)
      (weaken_entry rid (other_left other) es phase (Map.find rid r.calls) h)

call_run-SystemHolds :
    (rid : String) (r : CallTable) (es : List CallEvent)
    → All (OfOthers rid) es
    → SystemHolds rid es (call_run rid r es)
unfolding call_run
call_run-SystemHolds rid r [] others =
    rw (Map.find-set rid rid new_pending r.calls, eq_refl rid)
      (record {
        acked_heard = λ a. ground (arith, a);
        reply_heard = λ a. ground (arith, a);
        phase_holds = tt;
      })
call_run-SystemHolds rid r (e ∷ es) others =
    call_step-SystemHolds rid e es _ _ others.0 (call_run-SystemHolds rid r es others.1)

finished-Heard :
    (rid : String) (es : List CallEvent) (v : Value) (phase : Phase) (o : Option PendingCall)
    → phase ≡ finished (ok v)
    → EntryHolds rid es phase o
    → Heard rid (ack_reply true) es × Heard rid (payload_reply v) es
finished-Heard rid es v phase none is h = elim h [ ]
finished-Heard rid es v phase (some p) is h =
    let q : PhaseHolds rid es p.registered (finished (ok v)) = rw is at h.phase_holds in (q.0, q.1)

left_unregistered :
    (rid : String) (es : List CallEvent) (result : Result Value) (phase : Phase)
    (o : Option PendingCall)
    → phase ≡ finished result
    → EntryHolds rid es phase o
    → (p : PendingCall) × (o ≡ some p) × (p.registered ≡ false)
left_unregistered rid es result phase none is h = elim h [ ]
left_unregistered rid es (ok v) phase (some p) is h =
    let q : PhaseHolds rid es p.registered (finished (ok v)) = rw is at h.phase_holds in
    (p, refl, q.2)
left_unregistered rid es (throw e) phase (some p) is h = (p, refl, rw is at h.phase_holds)

-- Whatever happens around a call that was published, as long as no other call takes its
-- identifier: when transportCall returns a value, a positive acknowledgement of this call was
-- heard, and a reply to this call with that value.
pub call_run-returns_reply :
    (rid : String) (r : CallTable) (es : List CallEvent) (v : Value)
    → All (OfOthers rid) es
    → (call_run rid r es).0 ≡ finished (ok v)
    → Heard rid (ack_reply true) es × Heard rid (payload_reply v) es
call_run-returns_reply rid r es v others returned =
    finished-Heard rid es v _ _ returned (call_run-SystemHolds rid r es others)

-- Whatever happens around a call that was published, as long as no other call takes its
-- identifier: once transportCall has left, with a value or an exception, pending_ does not hold
-- the call.
pub call_run-unregistered :
    (rid : String) (r : CallTable) (es : List CallEvent) (result : Result Value)
    → All (OfOthers rid) es
    → (call_run rid r es).0 ≡ finished result
    → (p : PendingCall) × (Map.find rid (call_run rid r es).1.calls ≡ some p)
      × (p.registered ≡ false)
call_run-unregistered rid r es result others left =
    left_unregistered rid es result _ _ left (call_run-SystemHolds rid r es others)
