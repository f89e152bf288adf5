-- ===== src/Examples/Stream.antt =====
-- Stream queues at concrete inputs.
use magpie_cpp.Prelude.{arith, ◌≡◌, ◌≤◌, ◌∷◌, ℕ, length, List, true, some, refl, none, false, []}
use magpie_cpp.Stream.Bounds.{
  run-bounded, writer_run, reader_run, WriterEvent, ReaderEvent, writes, writer_closes, turns,
  reads, reader_closes, arrives,
}
use magpie_cpp.Prelude.Result.{unknown, throw, ok}
use magpie_cpp.Prelude.Int.{pos}
use magpie_cpp.Stream.Latest.{reader_run-latest, arrivals, latest}
use magpie_cpp.Stream.Writer.{new_writer, close_writer, writer_loop, StreamWriter}
use magpie_cpp.Stream.Drain.{close_writer-drains, frames_of}
use magpie_cpp.Stream.Reader.{new_reader}
use magpie_cpp.Stream.{Item}

abbrev late_events : List (ReaderEvent ℕ)
late_events =
    arrives (ok (some (some 1, "t")))
    ∷ arrives (throw unknown)
    ∷ arrives (ok (some (some 2, "t")))
    ∷ reads false
    ∷ reader_closes
    ∷ []

abbrev writer_events : List (WriterEvent ℕ)
writer_events =
    writes (ok (some 1)) 1 "t" ∷ turns ∷ writes (throw unknown) 2 "t" ∷ writer_closes ∷ []

run-bounded_example :
    (length (reader_run (new_reader (pos 1)) late_events).queue ≤ 1)
    × (length (writer_run (new_writer (pos 1)) writer_events).queue ≤ 1)
run-bounded_example = run-bounded 1 late_events writer_events (omega arith)

abbrev three : List (Item ℕ)
three = (1, "a") ∷ (2, "b") ∷ (3, "c") ∷ []

reader_run-latest_example :
    (reader_run (new_reader (pos 2)) (arrivals three)).queue ≡ latest 2 three
reader_run-latest_example = reader_run-latest 2 three (omega arith)

abbrev busy : StreamWriter ℕ
busy = record {
  queue_size = pos 4;
  closed = false;
  close_requested = false;
  queue = (some 1, "a") ∷ (none, "b") ∷ (some 2, "c") ∷ [];
}

close_writer-drains_example :
    writer_loop 4 (close_writer busy).0
    ≡ ((1, "a") ∷ (2, "c") ∷ [], record (close_writer busy).0 { queue = [] }, true)
unfolding frames_of
close_writer-drains_example = close_writer-drains busy 4 refl (omega arith)
