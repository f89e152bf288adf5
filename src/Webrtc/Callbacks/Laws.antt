-- ===== src/Webrtc/Callbacks/Laws.antt =====
-- Changing the callbacks and copying them: src/transport/webrtc/webrtc_connection.cpp.
use magpie_cpp.Prelude.Map
use mathlib.Core.Option
use magpie_cpp.Prelude.{
  ◌&&◌, ap, not, ◌==◌, arith, ◌∙◌, Bool-cases, ◌∷◌, ◌≡◌, ℕ, Bool, Option, List, String, some, refl,
  none, inr, inl, [],
}
use magpie_cpp.Webrtc.Callbacks.{
  put_handle, drop_under, drop_found, store_kept, put_under, map_handles, map_values,
}
use magpie_cpp.Mqtt.Connection.{erase_handle, has_none}
use magpie_cpp.Webrtc.Routing.{held}
use magpie_cpp.Prelude.Map.{Map, Distinct, map_laws}

module _ {A B : Type 0} (f : A → B) where
  pub map_values-set :
      (k : String) (a : A) (m : Map A)
      → map_values f (Map.set k a m) ≡ Map.set k (f a) (map_values f m)
  unfolding map_values Map.set
  map_values-set k a [] = refl
  map_values-set k a ((j, b) ∷ m) = ground (arith, map_values-set k a m)

  pub map_values-erase :
      (k : String) (m : Map A) → map_values f (Map.erase k m) ≡ Map.erase k (map_values f m)
  unfolding map_values Map.erase
  map_values-erase k [] = refl
  map_values-erase k ((j, b) ∷ m) = ground (arith, map_values-erase k m)

  pub map_handles-erase_handle :
      (h : ℕ) (l : List (ℕ × A))
      → map_handles f (erase_handle h l) ≡ erase_handle h (map_handles f l)
  unfolding map_handles erase_handle
  map_handles-erase_handle h [] = refl
  map_handles-erase_handle h ((i, a) ∷ l) = ground (arith, map_handles-erase_handle h l)

  pub map_handles-put_handle :
      (h : ℕ) (a : A) (l : List (ℕ × A))
      → map_handles f (put_handle h a l) ≡ put_handle h (f a) (map_handles f l)
  unfolding map_handles put_handle
  map_handles-put_handle h a l = rw (map_handles-erase_handle h l) refl

  pub find-map_values :
      (k : String) (m : Map A) → Map.find k (map_values f m) ≡ Option.map f (Map.find k m)
  unfolding map_values Map.find
  find-map_values k [] = refl
  find-map_values k ((j, a) ∷ m) = elim (Bool-cases (j == k)) [
    | inl e ↦ simp e refl
    | inr e ↦ simp e (find-map_values k m)
  ]

  has_none-map_handles : (l : List (ℕ × A)) → has_none (map_handles f l) ≡ has_none l
  unfolding has_none map_handles
  has_none-map_handles [] = refl
  has_none-map_handles (x ∷ l) = refl

  pub held-map :
      (o : Option (List (ℕ × A))) → held (Option.map (map_handles f) o) ≡ map_handles f (held o)
  unfolding held map_handles
  held-map none = refl
  held-map (some l) = refl

module _ {A B : Type 0} (f : A → B) where
  pub map_values-put_under :
      (k : String) (h : ℕ) (a : A) (m : Map (List (ℕ × A)))
      → map_values (map_handles f) (put_under k h a m)
        ≡ put_under k h (f a) (map_values (map_handles f) m)
  unfolding put_under
  map_values-put_under k h a m =
      simp
        (
          map_values-set (map_handles f),
          map_handles-put_handle f,
          find-map_values (map_handles f),
          held-map f,
        )
        refl

  map_values-store_kept :
      (b : Bool) (k : String) (l : List (ℕ × A)) (m : Map (List (ℕ × A)))
      → map_values (map_handles f) (store_kept b k l m)
        ≡ store_kept b k (map_handles f l) (map_values (map_handles f) m)
  unfolding store_kept
  map_values-store_kept b k l m = elim (Bool-cases (not b && has_none l)) [
    | inl e ↦ simp (e, has_none-map_handles f l) (map_values-erase (map_handles f) k m)
    | inr e ↦ simp (e, has_none-map_handles f l) (map_values-set (map_handles f) k l m)
  ]

  map_values-drop_found :
      (b : Bool) (k : String) (h : ℕ) (o : Option (List (ℕ × A))) (m : Map (List (ℕ × A)))
      → map_values (map_handles f) (drop_found b k h o m)
        ≡ drop_found b k h (Option.map (map_handles f) o) (map_values (map_handles f) m)
  unfolding drop_found
  map_values-drop_found b k h none m = refl
  map_values-drop_found b k h (some l) m =
      map_values-store_kept b k (erase_handle h l) m
      ∙ ap (λ kept. store_kept b k kept (map_values (map_handles f) m))
          (map_handles-erase_handle f h l)

  pub map_values-drop_under :
      (b : Bool) (k : String) (h : ℕ) (m : Map (List (ℕ × A)))
      → map_values (map_handles f) (drop_under b k h m)
        ≡ drop_under b k h (map_values (map_handles f) m)
  unfolding drop_under
  map_values-drop_under b k h m =
      rw (find-map_values (map_handles f) k m) (map_values-drop_found b k h (Map.find k m) m)
