-- ===== src/Prelude/Table.antt =====
-- `std::unordered_map<std::string, V>` with texts as bytes, and the vectors and sets of texts that
-- are searched by std::find and insert.
use magpie_cpp.Prelude.{
  true, Bool, false, List, [], ◌∷◌, ◌++◌, Option, none, some, if◌then◌else◌, ◌≡◌, refl, arith, ◌||◌,
  Bool-cases, inl, inr,
}
use mathlib.Core.Option.{some-injective, none-ne-some}
use magpie_cpp.Prelude.Bytes.{Bytes, same_bytes, same_bytes_iff, same_bytes_refl}

abbrev pub Table {ℓ} : Type ℓ → Type ℓ
Table V = List (Bytes × V)

module _ {ℓ} {V : Type ℓ} where
  unfoldable pub find : Bytes → Table V → Option V
  find k [] = none
  find k ((j, v) ∷ m) = if same_bytes j k then some v else find k m

  unfoldable pub set : Bytes → V → Table V → Table V
  set k v [] = (k, v) ∷ []
  set k v ((j, w) ∷ m) =
      let rest = set k v m in if same_bytes j k then (k, v) ∷ m else (j, w) ∷ rest

  unfoldable pub erase : Bytes → Table V → Table V
  erase k [] = []
  erase k ((j, v) ∷ m) = let rest = erase k m in if same_bytes j k then rest else (j, v) ∷ rest

  pub find_hit :
      (k j : Bytes) (v : V) (m : Table V) → same_bytes j k ≡ true → find k ((j, v) ∷ m) ≡ some v
  unfolding find
  find_hit k j v m e = rw e refl

  pub find_miss :
      (k j : Bytes) (v : V) (m : Table V) → same_bytes j k ≡ false → find k ((j, v) ∷ m) ≡ find k m
  unfolding find
  find_miss k j v m e = rw e refl

  pub find-set :
      (k j : Bytes) (v : V) (m : Table V)
      → find j (set k v m) ≡ (if same_bytes k j then some v else find j m)
  unfolding find set
  find-set k j v [] = refl
  find-set k j v ((i, w) ∷ m) =
      ground (arith, find-set k j v m, same_bytes_iff i k, same_bytes_iff i j, same_bytes_iff k j)

  pub find-erase :
      (k j : Bytes) (m : Table V) → find j (erase k m) ≡ (if same_bytes k j then none else find j m)
  unfolding find erase
  find-erase k j [] = ground arith
  find-erase k j ((i, w) ∷ m) =
      ground (arith, find-erase k j m, same_bytes_iff i k, same_bytes_iff i j, same_bytes_iff k j)

  pub find-set_self : (k : Bytes) (v : V) (m : Table V) → find k (set k v m) ≡ some v
  find-set_self k v m = simp (find-set, same_bytes_refl) refl

-- std::find(v.begin(), v.end(), text) != v.end()
unfoldable pub has : Bytes → List Bytes → Bool
has t [] = false
has t (x ∷ xs) = same_bytes x t || has t xs

-- if (std::find(…) == v.end()) v.push_back(text);
unfoldable pub push_new : Bytes → List Bytes → List Bytes
push_new t xs = if has t xs then xs else xs ++ (t ∷ [])

unfoldable pub push_each_new : List Bytes → List Bytes → List Bytes
unfolding push_new
push_each_new [] xs = xs
push_each_new (t ∷ ts) xs = push_each_new ts (push_new t xs)

-- v.erase(std::remove_text(v.begin(), v.end(), text), v.end()), and erase of a set
unfoldable pub remove_text : Bytes → List Bytes → List Bytes
remove_text t [] = []
remove_text t (x ∷ xs) = let rest = remove_text t xs in if same_bytes x t then rest else x ∷ rest

abbrev pub NoDuplicate : List Bytes → Type 0
NoDuplicate [] = Unit
NoDuplicate (x ∷ xs) = (has x xs ≡ false) × NoDuplicate xs

pub has-append : (t : Bytes) (xs ys : List Bytes) → has t (xs ++ ys) ≡ (has t xs || has t ys)
unfolding has
has-append t [] ys = refl
has-append t (x ∷ xs) ys = ground (arith, has-append t xs ys)

pub has-push_new :
    (t u : Bytes) (xs : List Bytes) → has t (push_new u xs) ≡ (has t xs || same_bytes u t)
unfolding push_new
has-push_new t u xs = elim (Bool-cases (has u xs)) [
  | inl e ↦ rw e (elim (Bool-cases (same_bytes u t)) [
    | inl s ↦ rw (s, ← (same_bytes_iff u t).0 s) (ground (arith, e))
    | inr s ↦ rw s (ground arith)
  ])
  | inr e ↦ rw (e, has-append t xs (u ∷ [])) (unfold has in ground arith)
]

append-NoDuplicate :
    (u : Bytes) (xs : List Bytes) → has u xs ≡ false → NoDuplicate xs → NoDuplicate (xs ++ (u ∷ []))
unfolding has
append-NoDuplicate u [] e d = (refl, tt)
append-NoDuplicate u (x ∷ xs) e d = (
  ground (arith, has-append x xs (u ∷ []), d.0, e, same_bytes_iff u x, same_bytes_iff x u),
  append-NoDuplicate u xs (ground (arith, e)) d.1,
)

pub push_new-NoDuplicate :
    (u : Bytes) (xs : List Bytes) → NoDuplicate xs → NoDuplicate (push_new u xs)
unfolding push_new
push_new-NoDuplicate u xs d = elim (Bool-cases (has u xs)) [
  | inl e ↦ rw e d
  | inr e ↦ rw e (append-NoDuplicate u xs e d)
]

pub push_each_new-NoDuplicate :
    (us xs : List Bytes) → NoDuplicate xs → NoDuplicate (push_each_new us xs)
unfolding push_each_new
push_each_new-NoDuplicate [] xs d = d
push_each_new-NoDuplicate (u ∷ us) xs d =
    push_each_new-NoDuplicate us (push_new u xs) (push_new-NoDuplicate u xs d)

pub has-remove_text :
    (t u : Bytes) (xs : List Bytes)
    → has t (remove_text u xs) ≡ (if same_bytes u t then false else has t xs)
unfolding has remove_text
has-remove_text t u [] = ground arith
has-remove_text t u (x ∷ xs) =
    ground
      (arith, has-remove_text t u xs, same_bytes_iff x u, same_bytes_iff x t, same_bytes_iff u t)

pub remove_text-NoDuplicate :
    (u : Bytes) (xs : List Bytes) → NoDuplicate xs → NoDuplicate (remove_text u xs)
unfolding remove_text
remove_text-NoDuplicate u [] d = tt
remove_text-NoDuplicate u (x ∷ xs) d = elim (Bool-cases (same_bytes x u)) [
  | inl e ↦ rw e (remove_text-NoDuplicate u xs d.1)
  | inr e ↦
      rw e (rw (has-remove_text x u xs) (ground (arith, d.0)), remove_text-NoDuplicate u xs d.1)
]

pub none-some {ℓ} : {V : Type ℓ} (v : V) → ¬ (◌≡◌ {A = Option V} none (some v))
none-some v = none-ne-some v

-- A predicate on every entry.
abbrev pub AllEntries {ℓ κ} : {V : Type ℓ} → (Bytes → V → Type κ) → Table V → Type κ
AllEntries P [] = Unit
AllEntries P ((k, v) ∷ m) = P k v × AllEntries P m

module _ {ℓ κ} {V : Type ℓ} (P : Bytes → V → Type κ) where
  pub set-AllEntries :
      (k : Bytes) (v : V) (m : Table V) → P k v → AllEntries P m → AllEntries P (set k v m)
  unfolding set
  set-AllEntries k v [] p a = (p, tt)
  set-AllEntries k v ((j, w) ∷ m) p a = elim (Bool-cases (same_bytes j k)) [
    | inl e ↦ rw e (p, a.1)
    | inr e ↦ rw e (a.0, set-AllEntries k v m p a.1)
  ]

  pub erase-AllEntries : (k : Bytes) (m : Table V) → AllEntries P m → AllEntries P (erase k m)
  unfolding erase
  erase-AllEntries k [] a = tt
  erase-AllEntries k ((j, w) ∷ m) a = elim (Bool-cases (same_bytes j k)) [
    | inl e ↦ rw e (erase-AllEntries k m a.1)
    | inr e ↦ rw e (a.0, erase-AllEntries k m a.1)
  ]

  pub find-AllEntries :
      (k : Bytes) (v : V) (m : Table V) → AllEntries P m → find k m ≡ some v → P k v
  unfolding find
  find-AllEntries k v [] a e = absurd (none-some v e)
  find-AllEntries k v ((j, w) ∷ m) a e = elim (Bool-cases (same_bytes j k)) [
    | inl s ↦ rw (← (same_bytes_iff j k).0 s) (rw (← some-injective w v (rw s at e)) a.0)
    | inr s ↦ find-AllEntries k v m a.1 (rw s at e)
  ]
