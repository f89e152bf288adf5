-- ===== src/Webrtc/Callbacks/Copies.antt =====
-- The peers of a group have its callbacks: src/transport/webrtc/webrtc_connection.cpp.
use magpie_cpp.Prelude.Map
use magpie_cpp.Prelude.{◌==◌, Bool-cases, ◌≡◌, ◌∷◌, ℕ, List, String, true, inr, inl, []}
use magpie_cpp.Webrtc.Callbacks.{
  register_callbacks, change_callbacks, Routed, forget_copy, copy_to, change_copies, GroupCallbacks,
  change_group, Change,
}
use magpie_cpp.Webrtc.Routing.{Callbacks}
use magpie_cpp.Prelude.Map.{Map, Distinct}
use magpie_cpp.Webrtc.Callbacks.Joined.{
  IsCopy, register_callbacks-IsCopy, change_callbacks-IsCopy, change_callbacks-Distinct,
}

-- Callbacks come and go, and so do peers.
pub data GroupChange (C : Type 0) : Type 0 where
  changes : Change C → GroupChange C
  joins leaves : String → GroupChange C

unfoldable pub callbacks_step : {C : Type 0} → GroupChange C → GroupCallbacks C → GroupCallbacks C
unfolding change_group copy_to forget_copy
callbacks_step (changes ch) g = change_group ch g
callbacks_step (joins remote) g = copy_to remote g
callbacks_step (leaves remote) g = forget_copy remote g

-- The events stand with the latest first.
unfoldable pub callbacks_run :
    {C : Type 0} → GroupCallbacks C → List (GroupChange C) → GroupCallbacks C
unfolding callbacks_step
callbacks_run g [] = g
callbacks_run g (e ∷ es) = callbacks_step e (callbacks_run g es)

-- Each peer has a copy of the group's callbacks.
abbrev pub AreCopies : {C : Type 0} → Callbacks C → Map (Callbacks (Routed C)) → Type 0
AreCopies own [] = Unit
AreCopies own ((remote, c) ∷ copies) = IsCopy remote own c × AreCopies own copies

change_copies-AreCopies :
    {C : Type 0} (h : ℕ) (ch : Change C) (own : Callbacks C) (copies : Map (Callbacks (Routed C)))
    → AreCopies own copies
    → AreCopies (change_callbacks true h ch own) (change_copies h ch copies)
unfolding change_copies
change_copies-AreCopies h ch own [] a = tt
change_copies-AreCopies h ch own ((remote, c) ∷ copies) a =
    (change_callbacks-IsCopy remote h ch own c a.0, change_copies-AreCopies h ch own copies a.1)

set-AreCopies :
    {C : Type 0} (remote : String) (own : Callbacks C) (copies : Map (Callbacks (Routed C)))
    → Distinct own.rpc_req_callbacks
    → AreCopies own copies
    → AreCopies own (Map.set remote (register_callbacks remote own) copies)
unfolding Map.set
set-AreCopies remote own [] d a = (register_callbacks-IsCopy remote own d, tt)
set-AreCopies remote own ((other, c) ∷ copies) d a = elim (Bool-cases (other == remote)) [
  | inl e ↦ simp e (register_callbacks-IsCopy remote own d, a.1)
  | inr e ↦ simp e (a.0, set-AreCopies remote own copies d a.1)
]

erase-AreCopies :
    {C : Type 0} (remote : String) (own : Callbacks C) (copies : Map (Callbacks (Routed C)))
    → AreCopies own copies
    → AreCopies own (Map.erase remote copies)
unfolding Map.erase
erase-AreCopies remote own [] a = tt
erase-AreCopies remote own ((other, c) ∷ copies) a = elim (Bool-cases (other == remote)) [
  | inl e ↦ simp e (erase-AreCopies remote own copies a.1)
  | inr e ↦ simp e (a.0, erase-AreCopies remote own copies a.1)
]

callbacks_run-Distinct :
    {C : Type 0} (g : GroupCallbacks C) (es : List (GroupChange C))
    → Distinct g.own.rpc_req_callbacks
    → Distinct (callbacks_run g es).own.rpc_req_callbacks
unfolding callbacks_run callbacks_step change_group copy_to forget_copy
callbacks_run-Distinct g [] d = d
callbacks_run-Distinct g (changes ch ∷ es) d =
    let r = callbacks_run g es in
    change_callbacks-Distinct r.next_handle ch r.own (callbacks_run-Distinct g es d)
callbacks_run-Distinct g (joins remote ∷ es) d = callbacks_run-Distinct g es d
callbacks_run-Distinct g (leaves remote ∷ es) d = callbacks_run-Distinct g es d

-- From a group without peers, whatever callbacks are added and removed and whichever peers join and
-- leave: each peer has exactly the callbacks of the group, under the same handles, for each topic,
-- service, request identifier and kind of media, those of requests with the note of the peer they
-- come from. The keys are the same but for services, where one without callbacks may have an entry
-- in the group and none in a peer that joined since.
pub callbacks_run-AreCopies :
    {C : Type 0} (g : GroupCallbacks C) (es : List (GroupChange C))
    → g.copies ≡ []
    → Distinct g.own.rpc_req_callbacks
    → AreCopies (callbacks_run g es).own (callbacks_run g es).copies
unfolding callbacks_run callbacks_step change_group copy_to forget_copy
callbacks_run-AreCopies g [] none_yet d = rw none_yet tt
callbacks_run-AreCopies g (changes ch ∷ es) none_yet d =
    let r = callbacks_run g es in
    change_copies-AreCopies r.next_handle ch r.own r.copies
      (callbacks_run-AreCopies g es none_yet d)
callbacks_run-AreCopies g (joins remote ∷ es) none_yet d =
    let r = callbacks_run g es in
    set-AreCopies remote r.own r.copies (callbacks_run-Distinct g es d)
      (callbacks_run-AreCopies g es none_yet d)
callbacks_run-AreCopies g (leaves remote ∷ es) none_yet d =
    let r = callbacks_run g es in
    erase-AreCopies remote r.own r.copies (callbacks_run-AreCopies g es none_yet d)
