-- ===== src/Prelude/Texts.antt =====
-- The order of texts, std::string's operator<.
use Prim.Native.Char.{code}
use Prim.Native.String.{String}
use mathlib.Core.Path.{◌≡◌, refl, ap₂}
use mathlib.Core.Logic.{◌≢◌, inl, inr}
use mathlib.Core.Bool.{not}
use native.Mathlib.Omega.{arith}
use text.Mathlib.TextEquality.{Char-path}
use magpie_cpp.Prelude.Tests.{text_ltb, eqb, Bool-cases}

-- Of two different texts one is less than the other, and not both.
pub text_ltb-not : (s t : String) → s ≢ t → text_ltb t s ≡ not (text_ltb s t)
unfolding text_ltb
text_ltb-not String.[] String.[] n = absurd (n refl)
text_ltb-not String.[] (String.◌∷◌ d t) n = refl
text_ltb-not (String.◌∷◌ c s) String.[] n = refl
text_ltb-not (String.◌∷◌ c s) (String.◌∷◌ d t) n = elim (Bool-cases (eqb (code c) (code d))) [
  | inl e ↦
      let same : code c ≡ code d = ground (arith, e) in
      ground (arith, text_ltb-not s t (λ p. n (ap₂ (λ x y. String.◌∷◌ x y) (Char-path c d same) p)))
  | inr e ↦ ground (arith, e)
]
