-- ===== src/Stream/Bounds.antt =====
-- The queues stay within their size: src/transport/stream_reader.cpp and
-- src/transport/stream_writer.cpp.
use magpie_cpp.Prelude.{
  ◌||◌, Bool-cases, List-cases, arith, ◌≤◌, ◌-◌, ◌+◌, ◌≡◌, ◌∷◌, String, ◌<◌, length, Option, Bool,
  List, inr, inl, ℕ, some, refl, none, [],
}
use magpie_cpp.Prelude.Result.{Result, throw, ok}
use magpie_cpp.Prelude.Int.{is_positive, pos}
use magpie_cpp.Stream.{max_queue_size, enqueue, pop_front, emplace_back}
use magpie_cpp.Stream.Reader.{
  new_reader, close_reader, read_woken, reader_turn, StreamReader, read, Arrival,
}
use magpie_cpp.Stream.Writer.{
  new_writer, write_copy, close_writer, writer_turn, StreamWriter, write,
}

length-emplace_back :
    {A : Type 0} (x : A) (xs : List A) → length (emplace_back x xs) ≡ length xs + 1
unfolding emplace_back
length-emplace_back x [] = refl
length-emplace_back x (y ∷ ys) = omega (arith, length-emplace_back x ys)

length-pop_front : {A : Type 0} (xs : List A) → length (pop_front xs) ≡ length xs - 1
unfolding pop_front
length-pop_front [] = refl
length-pop_front (x ∷ xs) = omega arith

pub length-enqueue :
    {A : Type 0} (m : ℕ) (x : A) (xs : List A) → 0 < m → length xs ≤ m → length (enqueue m x xs) ≤ m
unfolding enqueue
length-enqueue m x xs some_room fits =
    ground
      (arith, length-emplace_back x xs, length-emplace_back x (pop_front xs), length-pop_front xs)

-- What happens to a reader: a turn of its thread, a read, a close.
pub data ReaderEvent (F : Type 0) : Type 0 where
  arrives : Arrival F → ReaderEvent F
  reads : Bool → ReaderEvent F
  reader_closes : ReaderEvent F

pub data WriterEvent (F : Type 0) : Type 0 where
  writes : Result (Option F) → F → String → WriterEvent F
  turns : WriterEvent F
  writer_closes : WriterEvent F

module _ {F : Type 0} where
  unfoldable pub reader_step : StreamReader F → ReaderEvent F → StreamReader F
  unfolding read reader_turn close_reader
  reader_step r (arrives arrival) = reader_turn arrival r
  reader_step r (reads expired) = (read (ok none) expired r).1
  reader_step r reader_closes = (close_reader r).0

  unfoldable pub reader_run : StreamReader F → List (ReaderEvent F) → StreamReader F
  unfolding reader_step
  reader_run r [] = r
  reader_run r (e ∷ es) = reader_run (reader_step r e) es

  unfoldable pub writer_step : StreamWriter F → WriterEvent F → StreamWriter F
  unfolding write writer_turn close_writer
  writer_step w (writes copy frame topic) = (write (λ f. copy) frame topic w).0
  writer_step w turns = (writer_turn w).writer
  writer_step w writer_closes = (close_writer w).0

  unfoldable pub writer_run : StreamWriter F → List (WriterEvent F) → StreamWriter F
  unfolding writer_step
  writer_run w [] = w
  writer_run w (e ∷ es) = writer_run (writer_step w e) es

  abbrev ReaderFits : ℕ → StreamReader F → Type 0
  ReaderFits n r = (length r.queue ≤ n) × (r.queue_size ≡ pos n)

  abbrev WriterFits : ℕ → StreamWriter F → Type 0
  WriterFits n w = (length w.queue ≤ n) × (w.queue_size ≡ pos n)

  reader_turn-ReaderFits :
      (n : ℕ) (a : Arrival F) (r : StreamReader F)
      → 0 < n
      → ReaderFits n r
      → ReaderFits n (reader_turn a r)
  unfolding reader_turn max_queue_size
  reader_turn-ReaderFits n (ok (some (some frame, topic))) r room (fits, size) =
      (rw size (length-enqueue n (frame, topic) r.queue room fits), size)
  reader_turn-ReaderFits n (ok (some (none, topic))) r room h = h
  reader_turn-ReaderFits n (ok none) r room h = h
  reader_turn-ReaderFits n (throw e) r room h = h

  read_woken-ReaderFits :
      (n : ℕ) (expired : Bool) (r : StreamReader F)
      → ReaderFits n r
      → ReaderFits n (read_woken expired r).1
  unfolding read_woken
  read_woken-ReaderFits n expired r (fits, size) = elim (List-cases r.queue) [
    | inl none_left ↦ elim (Bool-cases (r.closed || r.close_requested)) [
      | inl done ↦ simp (none_left, done) (omega arith, size)
      | inr going ↦ elim (Bool-cases expired) [
        | inl late ↦ simp (none_left, going, late) (omega arith, size)
        | inr early ↦ simp (none_left, going, early) (omega arith, size)
      ]
    ]
    | inr (x, rest, some_left) ↦ simp some_left (omega (arith, rw some_left at fits), size)
  ]

  reader_step-ReaderFits :
      (n : ℕ) (r : StreamReader F) (e : ReaderEvent F)
      → 0 < n
      → ReaderFits n r
      → ReaderFits n (reader_step r e)
  unfolding reader_step read close_reader
  reader_step-ReaderFits n r (arrives a) room h = reader_turn-ReaderFits n a r room h
  reader_step-ReaderFits n r (reads expired) room h = elim (Bool-cases (is_positive r.queue_size)) [
    | inl queued ↦ elim (Bool-cases r.closed) [
      | inl shut ↦ simp (reader_step, read, queued, shut) h
      | inr running ↦
          simp (reader_step, read, queued, running) (read_woken-ReaderFits n expired r h)
    ]
    | inr direct ↦ simp (reader_step, read, direct) h
  ]
  reader_step-ReaderFits n r reader_closes room h = elim (Bool-cases r.closed) [
    | inl shut ↦ simp (reader_step, close_reader, shut) h
    | inr running ↦ simp (reader_step, close_reader, running) h
  ]

  reader_run-ReaderFits :
      (n : ℕ) (r : StreamReader F) (es : List (ReaderEvent F))
      → 0 < n
      → ReaderFits n r
      → ReaderFits n (reader_run r es)
  unfolding reader_run
  reader_run-ReaderFits n r [] room h = h
  reader_run-ReaderFits n r (e ∷ es) room h =
      reader_run-ReaderFits n (reader_step r e) es room (reader_step-ReaderFits n r e room h)

  write_copy-WriterFits :
      (n : ℕ) (copy : Result (Option F)) (topic : String) (w : StreamWriter F)
      → 0 < n
      → WriterFits n w
      → WriterFits n (write_copy copy topic w)
  unfolding write_copy max_queue_size
  write_copy-WriterFits n (ok (some frame)) topic w room (fits, size) =
      (rw size (length-enqueue n (some frame, topic) w.queue room fits), size)
  write_copy-WriterFits n (ok none) topic w room h = h
  write_copy-WriterFits n (throw e) topic w room h = h

  writer_step-WriterFits :
      (n : ℕ) (w : StreamWriter F) (e : WriterEvent F)
      → 0 < n
      → WriterFits n w
      → WriterFits n (writer_step w e)
  unfolding writer_step write writer_turn close_writer
  writer_step-WriterFits n w (writes copy frame topic) room h = elim (Bool-cases w.closed) [
    | inl shut ↦ simp (writer_step, write, shut) h
    | inr running ↦ elim (Bool-cases (is_positive w.queue_size)) [
      | inl queued ↦
          simp (writer_step, write, running, queued) (write_copy-WriterFits n copy topic w room h)
      | inr direct ↦ simp (writer_step, write, running, direct) h
    ]
  ]
  writer_step-WriterFits n w turns room (fits, size) = elim (List-cases w.queue) [
    | inl none_left ↦ simp (writer_step, writer_turn, none_left) (omega arith, size)
    | inr ((none, topic), rest, some_left) ↦
        simp (writer_step, writer_turn, some_left) (omega (arith, rw some_left at fits), size)
    | inr ((some frame, topic), rest, some_left) ↦
        simp (writer_step, writer_turn, some_left) (omega (arith, rw some_left at fits), size)
  ]
  writer_step-WriterFits n w writer_closes room h = elim (Bool-cases w.closed) [
    | inl shut ↦ simp (writer_step, close_writer, shut) h
    | inr running ↦ simp (writer_step, close_writer, running) h
  ]

  writer_run-WriterFits :
      (n : ℕ) (w : StreamWriter F) (es : List (WriterEvent F))
      → 0 < n
      → WriterFits n w
      → WriterFits n (writer_run w es)
  unfolding writer_run
  writer_run-WriterFits n w [] room h = h
  writer_run-WriterFits n w (e ∷ es) room h =
      writer_run-WriterFits n (writer_step w e) es room (writer_step-WriterFits n w e room h)

-- A reader and a writer made with a positive queue size never hold more frames than that, after
-- any history of their thread's turns, calls and a close.
pub run-bounded :
    {F : Type 0} (n : ℕ) (es : List (ReaderEvent F)) (ws : List (WriterEvent F))
    → 0 < n
    → (length (reader_run (new_reader (pos n)) es).queue ≤ n)
      × (length (writer_run (new_writer (pos n)) ws).queue ≤ n)
unfolding new_reader new_writer
run-bounded n es ws room = (
  (reader_run-ReaderFits n (new_reader (pos n)) es room (omega arith, refl)).0,
  (writer_run-WriterFits n (new_writer (pos n)) ws room (omega arith, refl)).0,
)
