-- ===== src/Stream/Writer.antt =====
-- StreamWriter, src/transport/stream_writer.cpp.
use magpie_cpp.Prelude.{
  ℕ, ◌++◌, zero, suc, ◌∷◌, not, String, if◌then◌else◌, Option, Bool, List, true, some, none, false,
  [],
}
use magpie_cpp.Prelude.Result.{Result, ok}
use magpie_cpp.Prelude.Int.{is_positive, ℤ}
use magpie_cpp.Stream.{enqueue, max_queue_size, Item}

pub record StreamWriter (F : Type 0) : Type 0 where
  pub queue_size : ℤ
  pub closed : Bool
  pub close_requested : Bool
  pub queue : List (Item (Option F))

-- What a turn of the loop does: what it writes to the transport, and whether the loop goes on.
pub record Turn (F : Type 0) : Type 0 where
  pub writer : StreamWriter F
  pub written : List (Item F)
  pub goes_on : Bool

module _ {F : Type 0} where
  unfoldable pub new_writer : ℤ → StreamWriter F
  new_writer queue_size = record {
    queue_size = queue_size;
    closed = false;
    close_requested = false;
    queue = [];
  }

  -- What clone() gave or threw, in queue mode.
  unfoldable pub write_copy : Result (Option F) → String → StreamWriter F → StreamWriter F
  unfolding enqueue max_queue_size
  write_copy (ok (some copy)) topic w = record w {
    queue = enqueue (max_queue_size w.queue_size) (some copy, topic) w.queue;
  }
  write_copy _ topic w = w

  -- StreamWriter::write: the writer after it, and what goes to the transport at once.
  unfoldable pub write :
      (F → Result (Option F)) → F → String → StreamWriter F → StreamWriter F × List (Item F)
  unfolding write_copy
  write clone frame topic w =
      if w.closed
      then (w, [])
      else if is_positive w.queue_size
      then (write_copy (clone frame) topic w, [])
      else (w, (frame, topic) ∷ [])

  -- One turn of StreamWriter::threadLoop.
  unfoldable pub writer_turn : StreamWriter F → Turn F
  writer_turn w = next w.queue
    where
      next : List (Item (Option F)) → Turn F
      next [] = record { writer = w; written = []; goes_on = not w.close_requested }
      next ((none, topic) ∷ rest) = record {
        writer = record w { queue = rest };
        written = [];
        goes_on = true;
      }
      next ((some frame, topic) ∷ rest) = record {
        writer = record w { queue = rest };
        written = (frame, topic) ∷ [];
        goes_on = true;
      }

  -- StreamWriter::close up to the join of the thread; transportClose follows if it says so.
  unfoldable pub close_writer : StreamWriter F → StreamWriter F × Bool
  close_writer w =
      if w.closed then (w, false) else (record w { closed = true; close_requested = true }, true)

  -- StreamWriter::threadLoop for as many turns: what it writes in all, the writer after it, and
  -- whether the loop has ended.
  unfoldable pub writer_loop : ℕ → StreamWriter F → List (Item F) × StreamWriter F × Bool
  unfolding writer_turn
  writer_loop zero w = ([], w, false)
  writer_loop (suc fuel) w =
      let turn = writer_turn w in
      let rest = writer_loop fuel turn.writer in
      if turn.goes_on
      then (turn.written ++ rest.0, rest.1, rest.2)
      else (turn.written, turn.writer, true)
