-- ===== src/Stream/Drain.antt =====
-- What a writer still sends when it is closed: src/transport/stream_writer.cpp.
use magpie_cpp.Prelude.{
  arith, ◌<◌, length, Bool, ◌≡◌, ◌∷◌, ℕ, Option, List, zero, true, suc, some, refl, none, false, [],
}
use magpie_cpp.Stream.Writer.{StreamWriter, writer_turn, close_writer, writer_loop}
use magpie_cpp.Stream.{Item}
use magpie_cpp.Prelude.Int.{ℤ}

module _ {F : Type 0} where
  -- The items of a queue that hold a frame.
  unfoldable pub frames_of : List (Item (Option F)) → List (Item F)
  frames_of [] = []
  frames_of ((none, topic) ∷ rest) = frames_of rest
  frames_of ((some frame, topic) ∷ rest) = (frame, topic) ∷ frames_of rest

  drained :
      (queue : List (Item (Option F))) (size : ℤ) (closed : Bool) (fuel : ℕ)
      → length queue < fuel
      → writer_loop fuel
          (record { queue_size = size; closed = closed; close_requested = true; queue = queue })
        ≡ (
          frames_of queue,
          record { queue_size = size; closed = closed; close_requested = true; queue = [] },
          true,
        )
  unfolding writer_loop writer_turn frames_of
  drained queue size closed zero enough = ground (arith, enough)
  drained [] size closed (suc fuel) enough = refl
  drained ((none, topic) ∷ rest) size closed (suc fuel) enough =
      rw (drained rest size closed fuel (omega arith)) refl
  drained ((some frame, topic) ∷ rest) size closed (suc fuel) enough =
      rw (drained rest size closed fuel (omega arith)) refl

  -- A writer that runs is not cut short by a close: within one turn more than its queue has
  -- items, its thread hands the transport every frame that is queued, in order, and ends.
  pub close_writer-drains :
      (w : StreamWriter F) (fuel : ℕ)
      → w.closed ≡ false
      → length w.queue < fuel
      → writer_loop fuel (close_writer w).0
        ≡ (frames_of w.queue, record (close_writer w).0 { queue = [] }, true)
  unfolding close_writer
  close_writer-drains w fuel running enough =
      rw running (drained w.queue w.queue_size true fuel enough)
