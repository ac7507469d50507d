-- ===== src/Prelude/Real.antt =====
-- Arithmetic in floating point, which the processor gives: the operations on `double` or `float` that the
-- code uses, as a parameter.
use Prim.Native.Nat.{ℕ}
use mathlib.Core.Bool.{Bool}
use urg_node.Prelude.Int.{ℤ}

pub record Arith : Type 1 where
  pub Real : Type 0
  pub of_int : ℤ → Real
  -- The literal of these digits with the point so many places from the right.
  pub literal : ℕ → ℕ → Real
  pub plus : Real → Real → Real
  pub minus : Real → Real → Real
  pub times : Real → Real → Real
  pub over : Real → Real → Real
  pub less : Real → Real → Bool
  -- `std::floor` and `std::ceil`, converted to an integer.
  pub floor_int : Real → ℤ
  pub ceil_int : Real → ℤ
  -- `std::fabs`.
  pub abs : Real → Real
  -- `M_PI`.
  pub pi : Real
