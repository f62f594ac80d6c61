-- ===== src/Prelude/Floating.antt =====
-- Floating point. The code computes with `float` and `double`; the models take the type and its
-- operations as an argument, and no theorem assumes a law of them unless it names it.
use Prim.Native.Nat.{ℕ, ◌+◌, ◌-◌, ◌*◌, ◌/◌}
use mathlib.Core.Bool.{Bool}
use embedded_network_monitor.Prelude.Tests.{ltb}

-- `gtb a b` is `a > b`. `of_ℕ` converts an unsigned integer, and `to_ℕ w` is the cast to an unsigned
-- type of `w` bits: by truncation where the result is in its range, and otherwise, where C leaves the
-- cast undefined, whatever the machine gives. `narrow` is the conversion of a `double` to a `float`, and
-- an operation on floats is that on doubles and then `narrow`. Where the code has floats alone, the type
-- is that of the floats.
pub record Floating (D : Type 0) : Type 0 where
  pub zero_d : D
  pub of_ℕ : ℕ → D
  pub to_ℕ : ℕ → D → ℕ
  pub narrow : D → D
  pub add : D → D → D
  pub sub : D → D → D
  pub mul : D → D → D
  pub div : D → D → D
  pub gtb : D → D → Bool

-- An instance for runs on concrete inputs: whole numbers.
instance abbrev pub nat_floating : Floating ℕ
nat_floating = record {
  zero_d = 0;
  of_ℕ = λ n. n;
  to_ℕ = λ w n. n;
  narrow = λ n. n;
  add = ◌+◌;
  sub = ◌-◌;
  mul = ◌*◌;
  div = ◌/◌;
  gtb = λ a b. ltb b a;
}
