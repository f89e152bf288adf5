-- ===== src/Zconf/Text.antt =====
-- The static text helpers at the top of src/discovery/zconf_discovery.cpp.
use mathlib.Core.List.{append_assoc}
use magpie_cpp.Prelude.{
  zero, suc, ℕ, ◌+◌, ◌-◌, Bool, true, false, ◌&&◌, eqb, leb, ltb, [], ◌∷◌, ◌++◌, length,
  length-append, if◌then◌else◌, ◌≡◌, refl, ap, ◌∙◌, arith, Bool-cases, inl, inr,
}
use magpie_cpp.Prelude.Bytes.{
  Bytes, same_bytes, take, drop, drop-length, take-length, same_bytes_refl,
}

-- tolower of the C locale.
unfoldable pub lower_byte : ℕ → ℕ
lower_byte c = if leb b'A' c && leb c b'Z' then c + 32 else c

unfoldable pub to_lower : Bytes → Bytes
to_lower [] = []
to_lower (c ∷ s) = lower_byte c ∷ to_lower s

-- s.back() == '.', for the text that `c` starts.
unfoldable pub back_is_dot : ℕ → Bytes → Bool
back_is_dot c [] = eqb c b'.'
back_is_dot c (d ∷ s) = back_is_dot d s

unfoldable pub ensure_trailing_dot : Bytes → Bytes
unfolding back_is_dot
ensure_trailing_dot [] = []
ensure_trailing_dot (c ∷ s) = if back_is_dot c s then c ∷ s else (c ∷ s) ++ (b'.' ∷ [])

unfoldable pub ends_with_case_insensitive : Bytes → Bytes → Bool
unfolding to_lower same_bytes
ends_with_case_insensitive s suffix =
    if ltb (length s) (length suffix)
    then false
    else same_bytes (to_lower (drop (length s - length suffix) s)) (to_lower suffix)

unfoldable pub norm_host : Bytes → Bytes
norm_host h = ensure_trailing_dot (to_lower h)

-- if (!node.empty() && node.back() == '.') node.pop_back();
unfoldable pub pop_dot : Bytes → Bytes
pop_dot [] = []
pop_dot (c ∷ []) = if eqb c b'.' then [] else c ∷ []
pop_dot (c ∷ d ∷ s) = c ∷ pop_dot (d ∷ s)

-- node_id_from_instance, for a discovery of `service_type`.
unfoldable pub node_id_from_instance : Bytes → Bytes → Bytes
node_id_from_instance service_type instance_name =
    let s = ensure_trailing_dot (to_lower instance_name) in
    let st = ensure_trailing_dot (to_lower service_type) in
    if ends_with_case_insensitive s st then pop_dot (take (length s - length st) s) else []

lower_byte_idem : (c : ℕ) → lower_byte (lower_byte c) ≡ lower_byte c
unfolding lower_byte
lower_byte_idem c = ground arith

pub to_lower_idem : (s : Bytes) → to_lower (to_lower s) ≡ to_lower s
unfolding to_lower
to_lower_idem [] = refl
to_lower_idem (c ∷ s) = cc (lower_byte_idem c, to_lower_idem s)

pub to_lower-append : (s t : Bytes) → to_lower (s ++ t) ≡ to_lower s ++ to_lower t
unfolding to_lower
to_lower-append [] t = refl
to_lower-append (c ∷ s) t = cc (to_lower-append s t)

pub length-to_lower : (s : Bytes) → length (to_lower s) ≡ length s
unfolding to_lower
length-to_lower [] = refl
length-to_lower (c ∷ s) = omega (arith, length-to_lower s)

lower_dot : lower_byte b'.' ≡ b'.'
unfolding lower_byte
lower_dot = refl

dot_is_dot : back_is_dot b'.' [] ≡ true
unfolding back_is_dot
dot_is_dot = refl

lower_byte-dot : (c : ℕ) → eqb (lower_byte c) b'.' ≡ eqb c b'.'
unfolding lower_byte
lower_byte-dot c = ground arith

back_is_dot-to_lower :
    (c : ℕ) (s : Bytes) → back_is_dot (lower_byte c) (to_lower s) ≡ back_is_dot c s
unfolding back_is_dot to_lower
back_is_dot-to_lower c [] = lower_byte-dot c
back_is_dot-to_lower c (d ∷ s) = back_is_dot-to_lower d s

pub ensure_trailing_dot-to_lower :
    (s : Bytes) → ensure_trailing_dot (to_lower s) ≡ to_lower (ensure_trailing_dot s)
unfolding ensure_trailing_dot to_lower
ensure_trailing_dot-to_lower [] = refl
ensure_trailing_dot-to_lower (c ∷ s) = elim (Bool-cases (back_is_dot c s)) [
  | inl e ↦ simp (back_is_dot-to_lower c s, e) refl
  | inr e ↦ simp (back_is_dot-to_lower c s, e, to_lower-append s (b'.' ∷ []), lower_dot) refl
]

back_is_dot-append :
    (c : ℕ) (s : Bytes) (d : ℕ) (t : Bytes) → back_is_dot c (s ++ (d ∷ t)) ≡ back_is_dot d t
unfolding back_is_dot
back_is_dot-append c [] d t = refl
back_is_dot-append c (x ∷ s) d t = back_is_dot-append x s d t

pub ensure_trailing_dot_idem :
    (s : Bytes) → ensure_trailing_dot (ensure_trailing_dot s) ≡ ensure_trailing_dot s
unfolding ensure_trailing_dot
ensure_trailing_dot_idem [] = refl
ensure_trailing_dot_idem (c ∷ s) = elim (Bool-cases (back_is_dot c s)) [
  | inl e ↦ simp (e) refl
  | inr e ↦ simp (e, back_is_dot-append c s b'.' []) refl
]

longer : (c : ℕ) (s : Bytes) → ¬ (((c ∷ s) ++ (b'.' ∷ [])) ≡ (c ∷ s))
longer c s e = omega (arith, ap length e, length-append {0} (c ∷ s) (b'.' ∷ []))

dotted-back : (t : Bytes) → ensure_trailing_dot t ≡ t → back_is_dot b'.' t ≡ true
unfolding ensure_trailing_dot back_is_dot
dotted-back [] e = refl
dotted-back (c ∷ s) e = elim (Bool-cases (back_is_dot c s)) [
  | inl b ↦ b
  | inr b ↦ absurd (longer c s (rw b at e))
]

-- Behind a dotted text nothing is added, whatever stands before it.
pub ensure_trailing_dot-append :
    (s t : Bytes)
    → ensure_trailing_dot t ≡ t
    → ensure_trailing_dot (s ++ (b'.' ∷ t)) ≡ s ++ (b'.' ∷ t)
ensure_trailing_dot-append [] t e = unfold ensure_trailing_dot in rw (dotted-back t e) refl
ensure_trailing_dot-append (c ∷ s) t e =
    unfold ensure_trailing_dot in simp (back_is_dot-append c s b'.' t, dotted-back t e) refl

pop_dot-append : (s : Bytes) → pop_dot (s ++ (b'.' ∷ [])) ≡ s
unfolding pop_dot
pop_dot-append [] = refl
pop_dot-append (c ∷ []) = refl
pop_dot-append (c ∷ d ∷ s) = ap (λ r. c ∷ r) (pop_dot-append (d ∷ s))

drop-suffix : (s t : Bytes) → drop (length (s ++ t) - length t) (s ++ t) ≡ t
drop-suffix s t =
    let e : length (s ++ t) - length t ≡ length s = omega (arith, length-append {0} s t) in
    rw e (drop-length s t)

take-suffix : (s t : Bytes) → take (length (s ++ t) - length t) (s ++ t) ≡ s
take-suffix s t =
    let e : length (s ++ t) - length t ≡ length s = omega (arith, length-append {0} s t) in
    rw e (take-length s t)

not_longer : (s t : Bytes) → ltb (length (s ++ t)) (length t) ≡ false
not_longer s t = ground (arith, length-append s t)

pub ends_with-append :
    (s t suffix : Bytes)
    → to_lower t ≡ to_lower suffix
    → ends_with_case_insensitive (s ++ t) suffix ≡ true
ends_with-append s t suffix e =
    let same : length t ≡ length suffix =
      omega (arith, length-to_lower t, length-to_lower suffix, ap length e) in
    unfold ends_with_case_insensitive in
    rw (← same) (simp (drop-suffix s t, e, same_bytes_refl (to_lower suffix), not_longer s t) refl)

lowered_type :
    (service_type : Bytes)
    → ensure_trailing_dot service_type ≡ service_type
    → ensure_trailing_dot (to_lower service_type) ≡ to_lower service_type
lowered_type service_type e = ensure_trailing_dot-to_lower service_type ∙ ap to_lower e

lower_dotted : (s : Bytes) → to_lower (b'.' ∷ s) ≡ b'.' ∷ to_lower s
unfolding to_lower lower_byte
lower_dotted s = refl

lowered_instance :
    (service_type id : Bytes)
    → ensure_trailing_dot service_type ≡ service_type
    → ensure_trailing_dot (to_lower (id ++ (b'.' ∷ service_type)))
      ≡ (to_lower id ++ (b'.' ∷ [])) ++ to_lower service_type
lowered_instance service_type id e =
    ensure_trailing_dot-to_lower (id ++ (b'.' ∷ service_type))
    ∙ (ap to_lower (ensure_trailing_dot-append id service_type e)
        ∙ simp (to_lower-append, append_assoc, lower_dotted) refl)

pub node_id_from_instance-append :
    (service_type id : Bytes)
    → ensure_trailing_dot service_type ≡ service_type
    → node_id_from_instance service_type (id ++ (b'.' ∷ service_type)) ≡ to_lower id
unfolding node_id_from_instance
node_id_from_instance-append service_type id e =
    let st = to_lower service_type in
    let start = to_lower id ++ (b'.' ∷ []) in
    rw (lowered_instance service_type id e, lowered_type service_type e)
      (simp (ends_with-append start st st refl, take-suffix start st, pop_dot-append (to_lower id))
        refl)

-- A canonical key: a text that has no upper-case letter.
to_lower-take : (n : ℕ) (s : Bytes) → to_lower (take n s) ≡ take n (to_lower s)
unfolding to_lower
to_lower-take zero s = refl
to_lower-take (suc n) [] = refl
to_lower-take (suc n) (c ∷ s) = ap (λ r. lower_byte c ∷ r) (to_lower-take n s)

to_lower-pop_dot : (s : Bytes) → to_lower (pop_dot s) ≡ pop_dot (to_lower s)
unfolding to_lower pop_dot
to_lower-pop_dot [] = refl
to_lower-pop_dot (c ∷ []) = elim (Bool-cases (eqb c b'.')) [
  | inl e ↦ rw (e, lower_byte-dot c ∙ e) refl
  | inr e ↦ rw (e, lower_byte-dot c ∙ e) refl
]
to_lower-pop_dot (c ∷ d ∷ s) = ap (λ r. lower_byte c ∷ r) (to_lower-pop_dot (d ∷ s))

pub to_lower-node_id_from_instance :
    (service_type instance_name : Bytes)
    → to_lower (node_id_from_instance service_type instance_name)
      ≡ node_id_from_instance service_type instance_name
unfolding node_id_from_instance
to_lower-node_id_from_instance service_type i =
    elim (Bool-cases (
      ends_with_case_insensitive (ensure_trailing_dot (to_lower i))
        (ensure_trailing_dot (to_lower service_type)))) [
          | inl e ↦ rw e (
              simp (to_lower-pop_dot, to_lower-take, ensure_trailing_dot-to_lower, to_lower_idem)
                refl)
          | inr e ↦ rw e (unfold to_lower in refl)
        ]
