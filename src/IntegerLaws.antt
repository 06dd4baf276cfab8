-- ===== src/IntegerLaws.antt =====
-- The integers keep the laws of finite doubles that the input mapping relies on.
use aylink_extra.Prelude.{◌≡◌, refl, arith, true}
use aylink_extra.Prelude.Int.{ℤ, pos, negsuc, min_ℤ, max_ℤ, leb_ℤ}
use aylink_extra.Integers.{integers}
use aylink_extra.Mapping.UnitSquare.{OrderLaws}

leb_max : (a b : ℤ) → leb_ℤ a (max_ℤ a b) ≡ true
leb_max (pos a) (pos b) = ground arith
leb_max (pos a) (negsuc b) = ground arith
leb_max (negsuc a) (pos b) = ground arith
leb_max (negsuc a) (negsuc b) = ground arith

min_leb : (a b : ℤ) → leb_ℤ (min_ℤ a b) a ≡ true
min_leb (pos a) (pos b) = ground arith
min_leb (pos a) (negsuc b) = ground arith
min_leb (negsuc a) (pos b) = ground arith
min_leb (negsuc a) (negsuc b) = ground arith

max_leb : (a b c : ℤ) → leb_ℤ a c ≡ true → leb_ℤ b c ≡ true → leb_ℤ (max_ℤ a b) c ≡ true
max_leb a b c h k = ground arith

pub integers-OrderLaws : OrderLaws integers
integers-OrderLaws = record {
  zero_is_finite = refl;
  one_is_finite = refl;
  least_is_finite = λ a b h k. refl;
  le_greatest = λ a b h k. leb_max a b;
  least_le = λ a b h k. min_leb a b;
  greatest_le = λ a b c h k. max_leb a b c h k;
  zero_le_zero = refl;
  zero_le_one = refl;
}
