-- ===== src/Zmq/Requester/Order.antt =====
-- What callers hand to the I/O thread: src/transport/zmq/zmq_rpc_requester.cpp.

use magpie_cpp.Prelude.{
  zero, suc, false, ◌+◌, if◌then◌else◌, ◌∙◌, Bool-cases, arith, inr, inl, Bool, ◌≡◌, ◌∷◌, ℕ, List,
  true, refl, [],
}
use magpie_cpp.Zmq.Requester.{
  DealerMessage, receive_failed, nothing_arrived, control_failed, arrived, poll_failed,
  fail_all_pending, end_loop, take_message, take_control, io_turn, Poll, io_loop, ZmqRequester,
  send_to_io, polled, pull, bring_forward, close_sentinel,
}
use magpie_cpp.Prelude.Bytes.{same_bytes}
use magpie_cpp.Stream.{emplace_back}
use magpie_cpp.Prelude.Result.{throw, ok}

-- How many messages pass a test.
unfoldable pub count : (List ℕ → Bool) → List (List ℕ) → ℕ
count test [] = 0
count test (bytes ∷ rest) = if test bytes then count test rest + 1 else count test rest

count-emplace_back :
    (test : List ℕ → Bool) (bytes : List ℕ) (all : List (List ℕ))
    → count test (emplace_back bytes all) ≡ count test (bytes ∷ all)
unfolding emplace_back count
count-emplace_back test bytes [] = refl
count-emplace_back test bytes (next ∷ rest) = rw (count-emplace_back test bytes rest) (ground arith)

count-bring_forward :
    (test : List ℕ → Bool) (bytes : List ℕ) (all : List (List ℕ))
    → count test (bring_forward bytes all) ≡ count test (bytes ∷ all)
unfolding bring_forward count
count-bring_forward test bytes [] = refl
count-bring_forward test bytes (next ∷ rest) = ground arith

count-pull :
    (test : List ℕ → Bool) (k : ℕ) (all : List (List ℕ)) → count test (pull k all) ≡ count test all
unfolding pull count
count-pull test k [] = refl
count-pull test zero (bytes ∷ rest) = refl
count-pull test (suc k) (bytes ∷ rest) =
    count-bring_forward test bytes (pull k rest) ∙ rw (count-pull test k rest) refl

-- Callers hand over bytes, and the I/O thread turns.
pub data IoEvent : Type 0 where
  hands_over : Bool → List ℕ → IoEvent
  io_turns : Poll → IoEvent

unfoldable pub io_step : IoEvent → ZmqRequester → ZmqRequester
unfolding send_to_io io_loop
io_step (hands_over arrives bytes) r = send_to_io arrives bytes r
io_step (io_turns poll) r = io_loop poll r

-- The events stand with the latest first.
unfoldable pub io_run : ZmqRequester → List IoEvent → ZmqRequester
unfolding io_step
io_run r [] = r
io_run r (e ∷ es) = io_step e (io_run r es)

-- What was handed over and got through to the PULL socket.
unfoldable pub handed_over : List IoEvent → List (List ℕ)
handed_over [] = []
handed_over (hands_over arrives bytes ∷ es) =
    let earlier = handed_over es in if arrives then bytes ∷ earlier else earlier
handed_over (io_turns poll ∷ es) = handed_over es

-- Of `n` messages that pass a test, each is forwarded or still queued.
abbrev Kept : (List ℕ → Bool) → ℕ → ZmqRequester → Type 0
Kept test n r = n ≡ count test r.forwarded + count test r.control

forward-count :
    (test : List ℕ → Bool) (n : ℕ) (bytes : List ℕ) (rest sent : List (List ℕ))
    → n ≡ count test sent + count test (bytes ∷ rest)
    → n ≡ count test (emplace_back bytes sent) + count test rest
unfolding count
forward-count test n bytes rest sent kept = rw (count-emplace_back test bytes sent) (ground arith)

queue-count :
    (test : List ℕ → Bool) (bytes : List ℕ) (all sent queue : List (List ℕ))
    → count test all ≡ count test sent + count test queue
    → count test (bytes ∷ all) ≡ count test sent + count test (emplace_back bytes queue)
unfolding count
queue-count test bytes all sent queue kept = rw (count-emplace_back test bytes queue) (ground arith)

take_control-Kept :
    (test : List ℕ → Bool) (n : ℕ) (send_fails : Bool) (queue : List (List ℕ)) (r : ZmqRequester)
    → n ≡ count test r.forwarded + count test queue
    → count test queue ≡ count test r.control
    → (take_control send_fails queue r).0 ≡ true
    → Kept test n (take_control send_fails queue r).1
unfolding take_control fail_all_pending
take_control-Kept test n send_fails [] r kept same = λ on. omega (arith, kept, same)
take_control-Kept test n send_fails (bytes ∷ rest) r kept same =
    elim (Bool-cases (same_bytes bytes close_sentinel)) [
      | inl e ↦ simp e (λ on. cc)
      | inr e ↦ elim (Bool-cases send_fails) [
        | inl f ↦ simp (e, f) (λ on. cc)
        | inr f ↦ simp (e, f) (λ on. forward-count test n bytes rest r.forwarded kept)
      ]
    ]

take_message-Kept :
    (test : List ℕ → Bool) (n : ℕ) (arrival : DealerMessage) (r : ZmqRequester)
    → Kept test n r
    → (take_message arrival r).looping ≡ true
    → Kept test n (take_message arrival r)
unfolding take_message end_loop fail_all_pending
take_message-Kept test n nothing_arrived r kept = λ on. kept
take_message-Kept test n (arrived (ok v)) r kept = λ on. kept
take_message-Kept test n (arrived (throw e)) r kept = λ on. kept
take_message-Kept test n receive_failed r kept = elim (Bool-cases r.table.closing) [
  | inl c ↦ simp c (λ on. cc)
  | inr c ↦ simp c (λ on. kept)
]

io_turn-Kept :
    (test : List ℕ → Bool) (n : ℕ) (poll : Poll) (r : ZmqRequester)
    → Kept test n r
    → (io_turn poll r).looping ≡ true
    → Kept test n (io_turn poll r)
unfolding io_turn end_loop fail_all_pending
io_turn-Kept test n poll_failed r kept = λ on. cc
io_turn-Kept test n (control_failed arrival) r kept = elim (Bool-cases r.table.closing) [
  | inl c ↦ simp c (λ on. cc)
  | inr c ↦ simp c (take_message-Kept test n arrival r kept)
]
io_turn-Kept test n (polled k send_fails arrival) r kept =
    let queue = pull k r.control in
    let r' = (take_control send_fails queue r).1 in
    let same = count-pull test k r.control in
    elim (Bool-cases (take_control send_fails queue r).0) [
      | inl goes ↦ simp goes (
          take_message-Kept test n arrival r'
            (take_control-Kept test n send_fails queue r (omega (arith, kept, same)) same goes))
      | inr halts ↦ simp halts (λ on. cc)
    ]

io_loop-Kept :
    (test : List ℕ → Bool) (n : ℕ) (poll : Poll) (r : ZmqRequester)
    → (r.looping ≡ true → Kept test n r)
    → (io_loop poll r).looping ≡ true
    → Kept test n (io_loop poll r)
unfolding io_loop
io_loop-Kept test n poll r kept = elim (Bool-cases r.looping) [
  | inl on ↦ simp on (io_turn-Kept test n poll r (kept on))
  | inr off ↦ simp off (λ on. cc)
]

-- As long as the I/O thread runs, the messages that callers handed over and that got through to
-- its PULL socket, in whichever order it takes them, are those that it sent to the DEALER socket
-- and those that it has not taken: by any test on messages as many went in as are on either side,
-- so that none is lost, altered or sent twice, whatever messages arrive.
pub io_run-Kept :
    (test : List ℕ → Bool) (r : ZmqRequester) (es : List IoEvent)
    → r.forwarded ≡ []
    → r.control ≡ []
    → (io_run r es).looping ≡ true
    → count test (handed_over es)
      ≡ count test (io_run r es).forwarded + count test (io_run r es).control
unfolding io_run io_step handed_over send_to_io
io_run-Kept test r [] none_sent none_queued on = rw (none_sent, none_queued) (unfold count in refl)
io_run-Kept test r (hands_over true bytes ∷ es) none_sent none_queued on =
    queue-count test bytes (handed_over es) (io_run r es).forwarded (io_run r es).control
      (io_run-Kept test r es none_sent none_queued on)
io_run-Kept test r (hands_over false bytes ∷ es) none_sent none_queued on =
    io_run-Kept test r es none_sent none_queued on
io_run-Kept test r (io_turns poll ∷ es) none_sent none_queued on =
    io_loop-Kept test (count test (handed_over es)) poll (io_run r es)
      (io_run-Kept test r es none_sent none_queued) on
