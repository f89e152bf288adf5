-- ===== src/Webrtc/HttpSignaler/Ids.antt =====
-- encodeId of src/transport/webrtc/webrtc_http_signaler.cpp, the names of sessions and peers in URLs.
-- Its `|` joins bits that are disjoint, and is a sum here.

use magpie_cpp.Prelude.{
  ◌∙◌, false, length, ℕ, zero, suc, ◌+◌, ◌*◌, ◌/◌, ◌%◌, ◌<◌, Bool, true, ◌&&◌, [], ◌∷◌, Option,
  none, some, eqb, if◌then◌else◌, get_elem?, All, ◌≡◌, refl, ap, arith,
}
use magpie_cpp.Prelude.Bytes.{Bytes, codes}

abbrev pub alphabet : Bytes
alphabet = codes "ABCDEFGHIJKLMNOPQRSTUVWXYZabcdefghijklmnopqrstuvwxyz0123456789-_"

abbrev or_nul : Option ℕ → ℕ
or_nul none = 0
or_nul (some c) = c

-- alphabet[i]
unfoldable pub letter : ℕ → ℕ
letter i = or_nul (get_elem? alphabet i)

unfoldable pub encode_id : Bytes → Bytes
encode_id [] = []
encode_id (a ∷ []) = letter (a / 4) ∷ letter (a % 4 * 16) ∷ []
encode_id (a ∷ b ∷ []) = letter (a / 4) ∷ letter (a % 4 * 16 + b / 16) ∷ letter (b % 16 * 4) ∷ []
encode_id (a ∷ b ∷ c ∷ rest) =
    letter (a / 4)
    ∷ letter (a % 4 * 16 + b / 16)
    ∷ letter (b % 16 * 4 + c / 64)
    ∷ letter (c % 64)
    ∷ encode_id rest

-- The place of a letter.
place : ℕ → Bytes → ℕ
place c [] = 0
place c (d ∷ ds) = if eqb d c then 0 else suc (place c ds)

unfoldable pub value_of : ℕ → ℕ
unfolding place
value_of c = place c alphabet

-- What encode_id is read back by.
unfoldable pub decode_id : Bytes → Bytes
decode_id (p ∷ q ∷ []) = (value_of p * 4 + value_of q / 16) ∷ []
decode_id (p ∷ q ∷ r ∷ []) =
    (value_of p * 4 + value_of q / 16) ∷ (value_of q % 16 * 16 + value_of r / 4) ∷ []
decode_id (p ∷ q ∷ r ∷ s ∷ rest) =
    (value_of p * 4 + value_of q / 16)
    ∷ (value_of q % 16 * 16 + value_of r / 4)
    ∷ (value_of r % 4 * 64 + value_of s)
    ∷ decode_id rest
decode_id _ = []

-- A test of every letter of a text, with its index counted from `k`.
unfoldable pub every_letter : (ℕ → ℕ → Bool) → ℕ → Bytes → Bool
every_letter test k [] = true
every_letter test k (c ∷ s) = test k c && every_letter test (suc k) s

both : {a b : Bool} → a && b ≡ true → (a ≡ true) × (b ≡ true)
both {a = true} e = (refl, e)
both {a = false} e = absurd (cc)

every_letter-get_elem :
    (test : ℕ → ℕ → Bool) (k : ℕ) (s : Bytes) (i : ℕ)
    → every_letter test k s ≡ true
    → i < length s
    → test (k + i) (or_nul (get_elem? s i)) ≡ true
unfolding every_letter
every_letter-get_elem test k [] i passed short = absurd (omega arith)
every_letter-get_elem test k (c ∷ s) zero passed short =
    let here : k + 0 ≡ k = omega arith in rw here (both passed).0
every_letter-get_elem test k (c ∷ s) (suc i) passed short =
    let moved : k + suc i ≡ suc k + i = omega arith in
    rw moved (every_letter-get_elem test (suc k) s i (both passed).1 (omega arith))

pub every_letter-letter :
    (test : ℕ → ℕ → Bool) (i : ℕ)
    → every_letter test 0 alphabet ≡ true
    → i < 64
    → test i (letter i) ≡ true
unfolding letter
every_letter-letter test i passed short =
    let from_zero : i ≡ 0 + i = omega arith in
    ap (λ n. test n (letter i)) from_zero ∙ every_letter-get_elem test 0 alphabet i passed short

same_number : (a b : ℕ) → eqb a b ≡ true → a ≡ b
same_number a b e = ground arith

value_of-letter : (i : ℕ) → i < 64 → value_of (letter i) ≡ i
unfolding every_letter value_of
value_of-letter i short =
    same_number (value_of (letter i)) i
      (every_letter-letter (λ k c. eqb (value_of c) k) i refl short)

abbrev pub IsByte : ℕ → Type 0
IsByte c = c < 256

one_byte : {x y : ℕ} → x ≡ y → ◌≡◌ {A = Bytes} (x ∷ []) (y ∷ [])
one_byte e = ap (λ c. c ∷ []) e

two_bytes : {x y z w : ℕ} → x ≡ y → z ≡ w → ◌≡◌ {A = Bytes} (x ∷ z ∷ []) (y ∷ w ∷ [])
two_bytes e f = cc

three_bytes :
    {x y z w u v : ℕ} (rest : Bytes)
    → x ≡ y
    → z ≡ w
    → u ≡ v
    → ◌≡◌ {A = Bytes} (x ∷ z ∷ u ∷ rest) (y ∷ w ∷ v ∷ rest)
three_bytes rest e f g = cc

pub decode_id-encode_id : (s : Bytes) → All IsByte s → decode_id (encode_id s) ≡ s
unfolding encode_id decode_id
decode_id-encode_id [] h = refl
decode_id-encode_id (a ∷ []) h =
    rw (value_of-letter (a / 4) (omega arith), value_of-letter (a % 4 * 16) (omega arith))
      (one_byte (omega arith))
decode_id-encode_id (a ∷ b ∷ []) h =
    rw
      (
        value_of-letter (a / 4) (omega arith),
        value_of-letter (a % 4 * 16 + b / 16) (omega arith),
        value_of-letter (b % 16 * 4) (omega arith),
      )
      (two_bytes (omega arith) (omega arith))
decode_id-encode_id (a ∷ b ∷ c ∷ rest) h =
    rw
      (
        value_of-letter (a / 4) (omega arith),
        value_of-letter (a % 4 * 16 + b / 16) (omega arith),
        value_of-letter (b % 16 * 4 + c / 64) (omega arith),
        value_of-letter (c % 64) (omega arith),
        decode_id-encode_id rest h.1.1.1,
      )
      (three_bytes rest (omega arith) (omega arith) (omega arith))
