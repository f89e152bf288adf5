-- ===== src/Prelude/Map.antt =====
-- `std::unordered_map<std::string, V>` as an association list. The standard leaves the order of
-- iteration open: here a new key goes to the end.
use Prim.Native.String.{String}
use mathlib.Core.Path.{◌≡◌, refl}
use mathlib.Core.Logic.{inl, inr}
use mathlib.Core.Option.{Option, none, some}
use mathlib.Core.List.{List, [], ◌∷◌}
use native.Mathlib.Omega.{arith}
use text.Mathlib.Text.{◌==◌}
use text.Mathlib.TextEquality.{eq_iff}
use magpie_cpp.Prelude.Tests.{Bool-cases, if◌then◌else◌}

abbrev pub Map {ℓ} : Type ℓ → Type ℓ
Map V = List (String × V)

module _ {ℓ} {V : Type ℓ} where
  -- m.find(k)
  unfoldable pub find : String → Map V → Option V
  find k [] = none
  find k ((j, v) ∷ m) = if j == k then some v else find k m

  -- m[k] = v
  unfoldable pub set : String → V → Map V → Map V
  set k v [] = (k, v) ∷ []
  set k v ((j, w) ∷ m) = let rest = set k v m in if j == k then (k, v) ∷ m else (j, w) ∷ rest

  -- m.erase(k)
  unfoldable pub erase : String → Map V → Map V
  erase k [] = []
  erase k ((j, v) ∷ m) = let rest = erase k m in if j == k then rest else (j, v) ∷ rest

  pub find-set :
      (k j : String) (v : V) (m : Map V)
      → find j (set k v m) ≡ (if k == j then some v else find j m)
  unfolding find set
  find-set k j v [] = refl
  find-set k j v ((i, w) ∷ m) = ground (arith, find-set k j v m, eq_iff i k, eq_iff i j, eq_iff k j)

  pub find-erase :
      (k j : String) (m : Map V) → find j (erase k m) ≡ (if k == j then none else find j m)
  unfolding find erase
  find-erase k j [] = ground arith
  find-erase k j ((i, w) ∷ m) = ground (arith, find-erase k j m, eq_iff i k, eq_iff i j, eq_iff k j)

pub ruleset map_laws = (find-set, find-erase)

-- No key twice: what an unordered_map guarantees.
abbrev pub Distinct {ℓ} : {V : Type ℓ} → Map V → Type ℓ
Distinct [] = Unit
Distinct ((k, v) ∷ m) = (find k m ≡ none) × Distinct m

module _ {ℓ} {V : Type ℓ} where
  pub set-Distinct : (k : String) (v : V) (m : Map V) → Distinct m → Distinct (set k v m)
  unfolding set
  set-Distinct k v [] d = (unfold find in refl, tt)
  set-Distinct k v ((j, w) ∷ m) d = elim (Bool-cases (j == k)) [
    | inl e ↦ rw e (rw (← (eq_iff j k).0 e) d.0, d.1)
    | inr e ↦
        rw e
          (rw (find-set k j v m) (ground (arith, eq_iff j k, eq_iff k j)), set-Distinct k v m d.1)
  ]

  pub erase-Distinct : (k : String) (m : Map V) → Distinct m → Distinct (erase k m)
  unfolding erase
  erase-Distinct k [] d = tt
  erase-Distinct k ((j, w) ∷ m) d = elim (Bool-cases (j == k)) [
    | inl e ↦ rw e (erase-Distinct k m d.1)
    | inr e ↦
        rw e
          (rw (find-erase k j m) (ground (arith, eq_iff j k, eq_iff k j)), erase-Distinct k m d.1)
  ]
