-- ===== src/Stream/Reader.antt =====
-- StreamReader, src/transport/stream_reader.cpp.
use magpie_cpp.Prelude.{
  ◌||◌, ◌∷◌, not, if◌then◌else◌, String, List, Bool, Option, true, some, none, false, [],
}
use magpie_cpp.Prelude.Result.{Exception, Result, throw, ok}
use magpie_cpp.Prelude.Int.{is_positive, ℤ}
use magpie_cpp.Stream.{Item, max_queue_size, enqueue}

pub record StreamReader (F : Type 0) : Type 0 where
  pub queue_size : ℤ
  pub closed : Bool
  pub close_requested : Bool
  pub queue : List (Item F)

-- What a read gives: a frame with its topic, `false`, or the exception of a direct read.
pub data ReadResult (F : Type 0) : Type 0 where
  frame_read : Option F → String → ReadResult F
  not_read : ReadResult F
  read_failed : Exception → ReadResult F

-- What the transport gives a direct read or a turn of the loop; the frame may be a null pointer.
abbrev pub Arrival : Type 0 → Type 0
Arrival F = Result (Option (Option F × String))

module _ {F : Type 0} where
  unfoldable pub new_reader : ℤ → StreamReader F
  new_reader queue_size = record {
    queue_size = queue_size;
    closed = false;
    close_requested = false;
    queue = [];
  }

  -- StreamReader::read behind its first checks, each time that its thread wakes; `none` waits on.
  unfoldable pub read_woken : Bool → StreamReader F → Option (ReadResult F) × StreamReader F
  read_woken expired r = next r.queue
    where
      next : List (Item F) → Option (ReadResult F) × StreamReader F
      next ((frame, topic) ∷ rest) =
          (some (frame_read (some frame) topic), record r { queue = rest })
      next [] =
          if r.closed || r.close_requested
          then (some not_read, r)
          else if expired
          then (some not_read, r)
          else (none, r)

  unfoldable pub direct_read : Arrival F → ReadResult F
  direct_read (ok (some (frame, topic))) = frame_read frame topic
  direct_read (ok none) = not_read
  direct_read (throw e) = read_failed e

  -- StreamReader::read, with what the transport gives it if it has no queue.
  unfoldable pub read : Arrival F → Bool → StreamReader F → Option (ReadResult F) × StreamReader F
  unfolding read_woken direct_read
  read arrival expired r =
      if not (is_positive r.queue_size)
      then (some (direct_read arrival), r)
      else if r.closed
      then (some not_read, r)
      else read_woken expired r

  -- One turn of StreamReader::threadLoop, with what transportReadBlocking gave or threw. Its
  -- warnings are not part of the state.
  unfoldable pub reader_turn : Arrival F → StreamReader F → StreamReader F
  unfolding enqueue max_queue_size
  reader_turn (ok (some (some frame, topic))) r = record r {
    queue = enqueue (max_queue_size r.queue_size) (frame, topic) r.queue;
  }
  reader_turn _ r = r

  -- StreamReader::close up to the join of the thread; transportClose follows if it says so.
  unfoldable pub close_reader : StreamReader F → StreamReader F × Bool
  close_reader r =
      if r.closed then (r, false) else (record r { closed = true; close_requested = true }, true)
