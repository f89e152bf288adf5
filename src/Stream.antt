-- ===== src/Stream.antt =====
-- The queues of StreamReader and StreamWriter, src/transport/stream_reader.cpp and
-- src/transport/stream_writer.cpp. A thread of each object moves frames between the queue and the
-- transport: each turn of its loop is a step. `F` stands for the frames.
pub mod Reader
pub mod Writer
pub mod Bounds
pub mod Latest
pub mod Drain
use magpie_cpp.Prelude.{length, leb, ◌&&◌, ltb, if◌then◌else◌, ◌∷◌, ℕ, List, String, []}
use magpie_cpp.Prelude.Int.{ℤ, pos, negsuc}

-- A frame with its topic.
abbrev pub Item : Type 0 → Type 0
Item F = F × String

-- queue_.emplace_back(item)
unfoldable pub emplace_back : {A : Type 0} → A → List A → List A
emplace_back x [] = x ∷ []
emplace_back x (y ∷ ys) = y ∷ emplace_back x ys

-- queue_.pop_front()
unfoldable pub pop_front : {A : Type 0} → List A → List A
pop_front [] = []
pop_front (x ∷ xs) = xs

-- static_cast<std::size_t>(queueSize), or 0
unfoldable pub max_queue_size : ℤ → ℕ
max_queue_size (pos n) = n
max_queue_size (negsuc n) = 0

-- Both threads enter an item so: a full queue drops its oldest one.
unfoldable pub enqueue : {A : Type 0} → ℕ → A → List A → List A
unfolding emplace_back pop_front
enqueue max_size x queue =
    emplace_back x
      (if ltb 0 max_size && leb max_size (length queue) then pop_front queue else queue)
