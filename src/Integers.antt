-- ===== src/Integers.antt =====
-- The integers as numbers, for runs at concrete inputs.
use aylink_extra.Prelude.{◌/◌, ◌+◌, true, not, ◌==◌}
use aylink_extra.Prelude.Int.{ℤ, pos, ◌+ℤ◌, ◌-ℤ◌, ◌*ℤ◌, min_ℤ, max_ℤ, leb_ℤ, pos_part, neg_part}
use aylink_extra.Prelude.Numbers.{Numbers}

abbrev pub integers : Numbers
integers = record {
  Num = ℤ;
  int = λ a. a;
  ratio = λ a b. pos (a / b);
  plus = λ a b. a +ℤ b;
  minus = λ a b. a -ℤ b;
  times = λ a b. a *ℤ b;
  over = λ a b. pos (pos_part a / pos_part b);
  abs = λ a. pos (pos_part a + neg_part a);
  least = min_ℤ;
  greatest = max_ℤ;
  hypot = λ a b. pos (pos_part a + neg_part a + pos_part b + neg_part b);
  lt = λ a b. not (leb_ℤ b a);
  le = leb_ℤ;
  is_finite = λ a. true;
  is_integer = λ a. true;
  truthy = λ a. not (pos_part a + neg_part a == 0);
  round = λ a. a;
  trunc = λ a. a;
}
