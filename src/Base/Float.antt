-- ===== src/Base/Float.antt =====
-- Python's floats. The interpreter implements them, so they are a parameter: a type with the
-- operations that the program calls. No law of arithmetic is assumed.
use Prim.Native.Nat.{ℕ}
use mathlib.Core.Bool.{Bool}
use mathlib.Core.Option.{Option}
use subnet.Base.Int.{ℤ}

pub record Float (F : Type 0) : Type 0 where
  pub of_int : ℤ → F
  -- `decimal m k` is the literal m * 10^-k
  pub decimal : ℕ → ℕ → F
  pub add : F → F → F
  pub sub : F → F → F
  pub mul : F → F → F
  pub div : F → F → F
  pub sqrt : F → F
  pub pow : F → F → F
  pub log2 : F → F
  pub is_nan : F → Bool
  pub is_inf : F → Bool
  -- `none` is the OverflowError
  pub exp : F → Option F
  pub abs : F → F
  pub inf : F
  pub lt : F → F → Bool
  pub le : F → F → Bool
  pub eq : F → F → Bool
  -- `int(x)`, which cuts towards zero
  pub trunc : F → ℤ
