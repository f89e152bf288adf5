-- ===== src/Prelude/Result.antt =====
-- C++ exceptions as values, and calls that act on a world outside the model.
use Prim.Native.String.{String}
use mathlib.Core.Option.{Option, none, some}
use magpie_cpp.Prelude.Int.{ℤ}

-- timeout_error.hpp: TimeoutError and its two subclasses.
pub data TimeoutKind : Type 0 where
  plain_timeout ack_timeout reply_timeout : TimeoutKind

-- What a call may throw. `std_error` stands for std::runtime_error and every other
-- std::exception; `unknown` is anything else, which only `catch (...)` sees.
pub data Exception : Type 0 where
  std_error : String → Exception
  timeout_error : TimeoutKind → String → Exception
  json_rpc_error : ℤ → String → Exception
  unknown : Exception

-- e.what(), for what `catch (const std::exception& e)` takes.
unfoldable pub what : Exception → Option String
what (std_error m) = some m
what (timeout_error k m) = some m
what (json_rpc_error c m) = some m
what unknown = none

pub data Result {ℓ} (A : Type ℓ) : Type ℓ where
  ok : A → Result A
  throw : Exception → Result A

infixl 5 ◌>>=◌
abbrev pub ◌>>=◌ {ℓ κ} : {A : Type ℓ} {B : Type κ} → Result A → (A → Result B) → Result B
ok a >>= f = f a
throw e >>= f = throw e

-- A call that may throw and acts on a world of type `W`: what it did stays done.
abbrev pub Eff : Type 0 → Type 0 → Type 0
Eff W A = W → Result A × W

-- The call returns, and its value satisfies `P`.
abbrev pub Ensures : {A : Type 0} → (A → Type 0) → Result A → Type 0
Ensures P (ok a) = P a
Ensures P (throw e) = ⊥
