-- ===== src/Prelude/Numbers.antt =====
-- The numbers of JavaScript that need not be integers (IEEE doubles) and their operations, as an
-- interface: the program computes coordinates, pressures and delays with them. `int` and `ratio`
-- are literals; `round` and `trunc` are `Math.round` and `Math.trunc` read as integers; `lt` and
-- `le` are `<` and `<=`, false on NaN; `truthy` is the conversion to a condition.
use aylink_extra.Prelude.Int.{ℤ}
use Prim.Native.Nat.{ℕ}
use mathlib.Core.Bool.{Bool}

pub record Numbers : Type 1 where
  pub Num : Type 0
  pub int : ℤ → Num
  pub ratio : ℕ → ℕ → Num
  pub plus : Num → Num → Num
  pub minus : Num → Num → Num
  pub times : Num → Num → Num
  pub over : Num → Num → Num
  pub abs : Num → Num
  pub least : Num → Num → Num
  pub greatest : Num → Num → Num
  pub hypot : Num → Num → Num
  pub lt : Num → Num → Bool
  pub le : Num → Num → Bool
  pub is_finite : Num → Bool
  pub is_integer : Num → Bool
  pub truthy : Num → Bool
  pub round : Num → ℤ
  pub trunc : Num → ℤ
