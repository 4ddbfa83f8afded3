-- ===== src/Base/Float64.antt =====
-- The C++ `double` and `float` as an interface: a type with the operations that the code calls.
-- Nothing is assumed of them here; a theorem that needs a law of rounding or order states it.
use Prim.Native.Nat.{ℕ, ◌+◌, ◌-◌, ◌*◌, ◌/◌, ◌%◌, ◌^◌}
use mathlib.Core.Bool.{Bool}
use netudp.Base.Tests.{ltb, leb}

pub record Float64 : Type 1 where
  pub Carrier : Type 0
  -- a literal, or a cast from an unsigned integer
  pub of_nat : ℕ → Carrier
  pub add : Carrier → Carrier → Carrier
  pub sub : Carrier → Carrier → Carrier
  pub mul : Carrier → Carrier → Carrier
  pub div : Carrier → Carrier → Carrier
  pub lt : Carrier → Carrier → Bool
  pub le : Carrier → Carrier → Bool
  -- `static_cast<uint32_t>`
  pub to_uint : Carrier → ℕ

-- Whole numbers of a unit, for runs at concrete times.
abbrev pub whole_numbers : Float64
whole_numbers = record {
  Carrier = ℕ;
  of_nat = λ n. n;
  add = λ a b. a + b;
  sub = λ a b. a - b;
  mul = λ a b. a * b;
  div = λ a b. a / b;
  lt = ltb;
  le = leb;
  to_uint = λ a. a % 2 ^ 32;
}
