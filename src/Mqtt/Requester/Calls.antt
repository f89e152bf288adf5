-- ===== src/Mqtt/Requester/Calls.antt =====
-- One call of transportCall among the events around it: src/transport/mqtt/mqtt_rpc_requester.cpp.
use magpie_cpp.Prelude.Map
use magpie_cpp.Prelude.Map.{Map, map_laws}
use magpie_cpp.Prelude.{
  eq_iff, sym, Bool-cases, arith, Option-cases, if◌then◌else◌, Option, ◌⊎◌, ◌∷◌, ◌≡◌, List, ◌==◌,
  Bool, String, true, some, refl, none, inr, inl, false, [],
}
use magpie_cpp.Mqtt.Requester.{
  deliver, take_if_registered, take_reply, other_reply, fail_call, unregister_call, PendingCall,
  read_reply, Phase, wake, update_call, Reply, CallTable, transport_close, fail_all, store_call,
  register_call, on_reply_message, waiting_reply, waiting_ack, payload_reply, finished, ack_reply,
}
use magpie_cpp.Prelude.Result.{throw, ok}
use magpie_cpp.Value.{Value}

-- What may happen while a call waits: a message for any call, transportClose, a wake-up of the
-- thread that waits, and another call that starts or leaves pending_.
pub data CallEvent : Type 0 where
  message : Value → CallEvent
  transport_closed : CallEvent
  woken : Bool → CallEvent
  other_started other_left : String → CallEvent

unfoldable pub call_step : String → CallEvent → Phase × CallTable → Phase × CallTable
unfolding on_reply_message transport_close wake register_call unregister_call
call_step rid (message m) (phase, r) = (phase, on_reply_message m r)
call_step rid transport_closed (phase, r) = (phase, transport_close r)
call_step rid (woken expired) (phase, r) = wake rid expired phase (Map.find rid r.calls) r
call_step rid (other_started other) (phase, r) = (phase, register_call other r)
call_step rid (other_left other) (phase, r) = (phase, unregister_call other r)

-- The events stand with the latest first.
unfoldable pub call_run : String → CallTable → List CallEvent → Phase × CallTable
unfolding register_call call_step
call_run rid r [] = (waiting_ack, register_call rid r)
call_run rid r (e ∷ es) = call_step rid e (call_run rid r es)

-- The other calls have other identifiers.
abbrev pub OfOthers : String → CallEvent → Type 0
OfOthers rid (other_started other) = (other == rid) ≡ false
OfOthers rid (other_left other) = (other == rid) ≡ false
OfOthers rid _ = Unit

abbrev pub Says : String → Reply → CallEvent → Type 0
Says rid reply (message m) = read_reply m ≡ some (rid, reply)
Says rid reply _ = ⊥

-- One of the events is a message with this reply to the call.
abbrev pub Heard : String → Reply → List CallEvent → Type 0
Heard rid reply [] = ⊥
Heard rid reply (e ∷ es) = Says rid reply e ⊎ Heard rid reply es

-- `registered` says whether pending_ still holds the call.
abbrev pub PhaseHolds : String → List CallEvent → Bool → Phase → Type 0
PhaseHolds rid es registered waiting_ack = Unit
PhaseHolds rid es registered waiting_reply = Heard rid (ack_reply true) es
PhaseHolds rid es registered (finished (ok v)) =
    Heard rid (ack_reply true) es × Heard rid (payload_reply v) es × (registered ≡ false)
PhaseHolds rid es registered (finished (throw e)) = registered ≡ false

pub record CallHolds (rid : String) (es : List CallEvent) (phase : Phase) (p : PendingCall)
    : Type 0 where
  pub acked_heard : p.acked ≡ true → Heard rid (ack_reply true) es
  pub reply_heard : p.replied ≡ true → Heard rid (payload_reply p.reply_payload) es
  pub phase_holds : PhaseHolds rid es p.registered phase

abbrev pub EntryHolds : String → List CallEvent → Phase → Option PendingCall → Type 0
EntryHolds rid es phase none = ⊥
EntryHolds rid es phase (some p) = CallHolds rid es phase p

-- The entry of a call after another entry was changed, or it.
pub find-store_call :
    (f : PendingCall → PendingCall) (j rid : String) (r : CallTable)
    → Map.find rid (store_call j (update_call f (Map.find j r.calls)) r).calls
      ≡ (if j == rid then update_call f (Map.find rid r.calls) else Map.find rid r.calls)
unfolding store_call update_call
find-store_call f j rid r = elim (Option-cases (Map.find j r.calls)) [
  | inl missing ↦ elim (Bool-cases (j == rid)) [
    | inl same ↦ rw (same, missing, sym ((eq_iff j rid).0 same), missing) refl
    | inr other ↦ rw (other, missing) refl
  ]
  | inr (p, found) ↦ elim (Bool-cases (j == rid)) [
    | inl same ↦
        rw (found, Map.find-set j rid (f p) r.calls, same, sym ((eq_iff j rid).0 same), found) refl
    | inr other ↦ rw (found, Map.find-set j rid (f p) r.calls, other) refl
  ]
]

pub find-fail_all :
    (err rid : String) (m : Map PendingCall)
    → Map.find rid (fail_all err m) ≡ update_call (fail_call err) (Map.find rid m)
unfolding fail_all Map.find update_call
find-fail_all err rid [] = refl
find-fail_all err rid ((k, p) ∷ m) = ground (arith, find-fail_all err rid m)

weaken_phase :
    (rid : String) (e : CallEvent) (es : List CallEvent) (phase : Phase) (p q : Bool)
    → (p ≡ false → q ≡ false)
    → PhaseHolds rid es p phase
    → PhaseHolds rid (e ∷ es) q phase
weaken_phase rid e es waiting_ack p q gone h = tt
weaken_phase rid e es waiting_reply p q gone h = inr h
weaken_phase rid e es (finished (ok v)) p q gone (a, b, c) = (inr a, inr b, gone c)
weaken_phase rid e es (finished (throw x)) p q gone h = gone h

weaken :
    (rid : String) (e : CallEvent) (es : List CallEvent) (phase : Phase) (p : PendingCall)
    → CallHolds rid es phase p
    → CallHolds rid (e ∷ es) phase p
weaken rid e es phase p h = record {
  acked_heard = λ a. inr (h.acked_heard a);
  reply_heard = λ a. inr (h.reply_heard a);
  phase_holds = weaken_phase rid e es phase p.registered p.registered (λ g. g) h.phase_holds;
}

pub weaken_entry :
    (rid : String) (e : CallEvent) (es : List CallEvent) (phase : Phase) (o : Option PendingCall)
    → EntryHolds rid es phase o
    → EntryHolds rid (e ∷ es) phase o
weaken_entry rid e es phase none h = elim h [ ]
weaken_entry rid e es phase (some p) h = weaken rid e es phase p h

take_reply-CallHolds :
    (name rid : String) (reply : Reply) (e : CallEvent) (es : List CallEvent) (phase : Phase)
    (p : PendingCall)
    → Says rid reply e
    → CallHolds rid es phase p
    → CallHolds rid (e ∷ es) phase (take_reply name reply p)
unfolding take_reply
take_reply-CallHolds name rid (ack_reply true) e es phase p said h = record {
  acked_heard = λ a. inl said;
  reply_heard = λ a. inr (h.reply_heard a);
  phase_holds = weaken_phase rid e es phase p.registered p.registered (λ g. g) h.phase_holds;
}
take_reply-CallHolds name rid (ack_reply false) e es phase p said h = record {
  acked_heard = λ a. inr (h.acked_heard a);
  reply_heard = λ a. inr (h.reply_heard a);
  phase_holds = weaken_phase rid e es phase p.registered p.registered (λ g. g) h.phase_holds;
}
take_reply-CallHolds name rid (payload_reply v) e es phase p said h = record {
  acked_heard = λ a. inr (h.acked_heard a);
  reply_heard = λ a. inl said;
  phase_holds = weaken_phase rid e es phase p.registered p.registered (λ g. g) h.phase_holds;
}
take_reply-CallHolds name rid other_reply e es phase p said h = record {
  acked_heard = λ a. inr (h.acked_heard a);
  reply_heard = λ a. inr (h.reply_heard a);
  phase_holds = weaken_phase rid e es phase p.registered p.registered (λ g. g) h.phase_holds;
}

take_reply-EntryHolds :
    (name rid : String) (reply : Reply) (e : CallEvent) (es : List CallEvent) (phase : Phase)
    (o : Option PendingCall)
    → Says rid reply e
    → EntryHolds rid es phase o
    → EntryHolds rid (e ∷ es) phase (update_call (take_if_registered name reply) o)
unfolding update_call take_if_registered
take_reply-EntryHolds name rid reply e es phase none said h = elim h [ ]
take_reply-EntryHolds name rid reply e es phase (some p) said h = elim (Bool-cases p.registered) [
  | inl here ↦ simp here (take_reply-CallHolds name rid reply e es phase p said h)
  | inr gone ↦ simp gone (weaken rid e es phase p h)
]

pub fail_call-EntryHolds :
    (err rid : String) (e : CallEvent) (es : List CallEvent) (phase : Phase)
    (o : Option PendingCall)
    → EntryHolds rid es phase o
    → EntryHolds rid (e ∷ es) phase (update_call (fail_call err) o)
unfolding update_call fail_call
fail_call-EntryHolds err rid e es phase none h = elim h [ ]
fail_call-EntryHolds err rid e es phase (some p) h = elim (Bool-cases p.registered) [
  | inl here ↦ simp here (record {
    acked_heard = λ a. inr (h.acked_heard a);
    reply_heard = λ a. inr (h.reply_heard a);
    phase_holds = weaken_phase rid e es phase p.registered false (λ g. refl) h.phase_holds;
  })
  | inr gone ↦ simp gone (weaken rid e es phase p h)
]

pub deliver-EntryHolds :
    (rid : String) (m : Value) (es : List CallEvent) (phase : Phase) (r : CallTable)
    (heard : Option (String × Reply))
    → read_reply m ≡ heard
    → EntryHolds rid es phase (Map.find rid r.calls)
    → EntryHolds rid (message m ∷ es) phase (Map.find rid (deliver heard r).calls)
unfolding deliver
deliver-EntryHolds rid m es phase r none read h =
    weaken_entry rid (message m) es phase (Map.find rid r.calls) h
deliver-EntryHolds rid m es phase r (some (j, reply)) read h =
    rw (find-store_call (take_if_registered r.name reply) j rid r) (elim (Bool-cases (j == rid)) [
      | inl same ↦ rw same (
          take_reply-EntryHolds r.name rid reply (message m) es phase (Map.find rid r.calls)
            (rw ((eq_iff j rid).0 same) at read) h)
      | inr other ↦ rw other (weaken_entry rid (message m) es phase (Map.find rid r.calls) h)
    ])
