-- ===== src/Base/Float.antt =====
-- Go's `float64`, as the operations that the program applies to it. No law is assumed.
use Prim.Native.Nat.{ℕ, ◌+◌, ◌-◌, ◌*◌, ◌/◌, ◌^◌, min, max}
use mathlib.Core.Bool.{Bool}
use mathlib.Core.Option.{Option, some}
use tennis_wiki.Base.Tests.{ltb, ◌==◌}

pub record Float : Type 1 where
  pub F : Type 0
  -- The constant with these digits, so many of them behind the point.
  pub lit : ℕ → ℕ → F
  pub of_int : ℕ → F
  pub add : F → F → F
  pub sub : F → F → F
  pub mul : F → F → F
  pub div : F → F → F
  pub pow : F → F → F
  pub lt : F → F → Bool
  pub eq : F → F → Bool
  -- `math.Min`, `math.Max`, `math.Sqrt` and `math.Abs`.
  pub min : F → F → F
  pub max : F → F → F
  pub sqrt : F → F
  pub abs : F → F
  -- `int(math.Floor(x))`; `none` is any negative number.
  pub floor : F → Option ℕ

-- Whole numbers in the place of floats, for runs of the code.
abbrev pub whole : Float
whole = record {
  F = ℕ;
  lit = λ a d. a / 10 ^ d;
  of_int = λ n. n;
  add = λ a b. a + b;
  sub = λ a b. a - b;
  mul = λ a b. a * b;
  div = λ a b. a / b;
  pow = λ a b. a ^ b;
  lt = ltb;
  eq = λ a b. a == b;
  min = min;
  max = max;
  sqrt = λ a. a;
  abs = λ a. a;
  floor = λ a. some a;
}
