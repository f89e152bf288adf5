-- ===== src/Prelude/Int.antt =====
-- Signed integers, and the conversions between the widths that the program uses.
use Prim.Native.Nat.{ℕ, ◌-◌, ◌<◌, ◌%◌, ◌^◌}
use mathlib.Core.Path.{◌≡◌}
use mathlib.Core.Bool.{Bool, true, false}
use native.Mathlib.Omega.{arith}
use magpie_cpp.Prelude.Tests.{ltb, eqb, if◌then◌else◌}

-- `negsuc n` is -(n + 1).
pub data ℤ : Type 0 where
  pos : ℕ → ℤ
  negsuc : ℕ → ℤ

-- z != 0
unfoldable pub is_nonzero : ℤ → Bool
is_nonzero (pos n) = if eqb n 0 then false else true
is_nonzero (negsuc n) = true

-- z > 0
unfoldable pub is_positive : ℤ → Bool
is_positive (pos n) = ltb 0 n
is_positive (negsuc n) = false

-- The value fits a two's complement word of `w + 1` bits.
abbrev pub FitsBits : ℕ → ℤ → Type 0
FitsBits w (pos n) = n < 2 ^ w
FitsBits w (negsuc n) = n < 2 ^ w

abbrev pub IsInt32 : ℤ → Type 0
IsInt32 z = FitsBits 31 z

-- static_cast<int>(std::int64_t): the low 32 bits, read as a signed word.
unfoldable pub to_int32 : ℤ → ℤ
to_int32 (pos n) =
    let r : ℕ = n % 2 ^ 32 in if ltb r (2 ^ 31) then pos r else negsuc (2 ^ 32 - 1 - r)
to_int32 (negsuc n) =
    let r : ℕ = n % 2 ^ 32 in if ltb r (2 ^ 31) then negsuc r else pos (2 ^ 32 - 1 - r)

pub to_int32-IsInt32 : (z : ℤ) → IsInt32 (to_int32 z)
unfolding to_int32
to_int32-IsInt32 (pos n) = ground arith
to_int32-IsInt32 (negsuc n) = ground arith

-- A value in range is kept.
pub to_int32-eq_of_IsInt32 : (z : ℤ) → IsInt32 z → to_int32 z ≡ z
unfolding to_int32
to_int32-eq_of_IsInt32 (pos n) h = ground arith
to_int32-eq_of_IsInt32 (negsuc n) h = ground arith
