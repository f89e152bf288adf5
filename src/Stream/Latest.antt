-- ===== src/Stream/Latest.antt =====
-- What a full queue keeps: src/transport/stream_reader.cpp and src/transport/stream_writer.cpp.
use mathlib.Core.List.{append-nil}
-- The items of a list after the first `n`.
use magpie_cpp.Prelude.{
  ap, ◌∙◌, some, leb, ◌&&◌, ltb, Bool-cases, length-append, sym, inr, inl, arith, ◌-◌, ◌<◌, ◌++◌,
  ◌≡◌, ◌≤◌, length, ◌∷◌, List, ℕ, zero, suc, refl, [],
}
use magpie_cpp.Stream.{max_queue_size, Item, pop_front, enqueue, emplace_back}
use magpie_cpp.Stream.Bounds.{reader_step, ReaderEvent, reader_run, arrives, length-enqueue}
use magpie_cpp.Prelude.Result.{ok}
use magpie_cpp.Prelude.Int.{pos}
use magpie_cpp.Stream.Reader.{StreamReader, reader_turn, new_reader}

unfoldable pub drop : {A : Type 0} → ℕ → List A → List A
drop zero xs = xs
drop (suc n) [] = []
drop (suc n) (x ∷ xs) = drop n xs

-- The last `m` items of a list, or all if it has fewer.
unfoldable pub latest : {A : Type 0} → ℕ → List A → List A
unfolding drop
latest m xs = drop (length xs - m) xs

module _ {A : Type 0} where
  latest-short : (m : ℕ) (xs : List A) → length xs ≤ m → latest m xs ≡ xs
  unfolding latest drop
  latest-short m xs short = let none_over : length xs - m ≡ 0 = omega arith in rw none_over refl

  latest-cons : (m : ℕ) (x : A) (xs : List A) → m ≤ length xs → latest m (x ∷ xs) ≡ latest m xs
  unfolding latest drop
  latest-cons m x xs long =
      let one_more : suc (length xs) - m ≡ suc (length xs - m) = omega arith in rw one_more refl

  emplace_back-append : (x : A) (xs : List A) → emplace_back x xs ≡ (xs ++ (x ∷ []))
  unfolding emplace_back
  emplace_back-append x [] = refl
  emplace_back-append x (y ∷ ys) = rw (emplace_back-append x ys) refl

  append-one : (x : A) (xs ys : List A) → ((xs ++ (x ∷ [])) ++ ys) ≡ (xs ++ (x ∷ ys))
  append-one x [] ys = refl
  append-one x (z ∷ zs) ys = rw (append-one x zs ys) refl

  -- What is kept of a queue, an item that enters it and what comes after.
  latest-enqueue :
      (m : ℕ) (x : A) (queue later : List A)
      → 0 < m
      → latest m (enqueue m x queue ++ later) ≡ latest m (queue ++ (x ∷ later))
  unfolding enqueue pop_front
  latest-enqueue m x queue later room = elim (Bool-cases (ltb 0 m && leb m (length queue))) [
    | inl full ↦ rw full (dropped queue (ground (arith, full)))
    | inr open_end ↦ rw (open_end, emplace_back-append x queue, append-one x queue later) refl
  ]
    where
      dropped :
          (q : List A)
          → m ≤ length q
          → latest m (emplace_back x (pop_front q) ++ later) ≡ latest m (q ++ (x ∷ later))
      dropped [] full = let nothing : ⊥ = omega (arith, full, room) in elim nothing [ ]
      dropped (y ∷ ys) full =
          rw (emplace_back-append x ys, append-one x ys later)
            (sym (
              latest-cons m y (ys ++ (x ∷ later))
                (omega (arith, length-append ys (x ∷ later), full))))

  -- Items that enter one after the other.
  unfoldable pub enqueue_all : ℕ → List A → List A → List A
  enqueue_all m [] queue = queue
  enqueue_all m (x ∷ xs) queue = enqueue_all m xs (enqueue m x queue)

  enqueue_all-latest :
      (m : ℕ) (xs queue : List A)
      → 0 < m
      → length queue ≤ m
      → enqueue_all m xs queue ≡ latest m (queue ++ xs)
  unfolding enqueue_all
  enqueue_all-latest m [] queue room fits = rw (append-nil queue) (sym (latest-short m queue fits))
  enqueue_all-latest m (x ∷ xs) queue room fits =
      rw (enqueue_all-latest m xs (enqueue m x queue) room (length-enqueue m x queue room fits))
        (latest-enqueue m x queue xs room)

module _ {F : Type 0} where
  -- Frames that arrive at a reader one after the other.
  unfoldable pub arrivals : List (Item F) → List (ReaderEvent F)
  arrivals [] = []
  arrivals ((frame, topic) ∷ rest) = arrives (ok (some (some frame, topic))) ∷ arrivals rest

  queue-reader_run :
      (n : ℕ) (xs : List (Item F)) (r : StreamReader F)
      → r.queue_size ≡ pos n
      → (reader_run r (arrivals xs)).queue ≡ enqueue_all n xs r.queue
  unfolding reader_run reader_step reader_turn arrivals enqueue_all max_queue_size
  queue-reader_run n [] r size = refl
  queue-reader_run n ((frame, topic) ∷ xs) r size =
      queue-reader_run n xs (reader_turn (ok (some (some frame, topic))) r) size
      ∙ ap (λ z. enqueue_all n xs (enqueue (max_queue_size z) (frame, topic) r.queue)) size

  -- After any number of frames arrived at a reader that has a queue and that nobody read from, the
  -- queue holds the latest of them, in the order of their arrival, as many as its size allows.
  pub reader_run-latest :
      (n : ℕ) (xs : List (Item F))
      → 0 < n
      → (reader_run (new_reader (pos n)) (arrivals xs)).queue ≡ latest n xs
  unfolding new_reader
  reader_run-latest n xs room =
      queue-reader_run n xs (new_reader (pos n)) refl
      ∙ enqueue_all-latest n xs [] room (omega arith)
