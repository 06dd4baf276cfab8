-- ===== src/Prelude/Double.antt =====
-- The values of JavaScript's `number`, apart from the sign of a zero: a finite double is an integer over
-- a power of two. Its order, `Math.min` and `Math.max`, the negation and the truncation to an integer.
use Prim.Native.Nat.{ℕ, suc, ◌/◌, ◌^◌}
use mathlib.Core.Path.{◌≡◌, refl}
use mathlib.Core.Logic.{◌⊎◌, inl, inr}
use mathlib.Core.Bool.{Bool, true, false}
use native.Mathlib.Omega.{arith}
use aylink_extra.Prelude.Tests.{if◌then◌else◌, Bool-cases}
use aylink_extra.Prelude.Int.{ℤ, pos, negsuc, ◌*ℤ◌, leb_ℤ, neg}

pub data Double : Type 0 where
  not_a_number minus_infinity plus_infinity : Double
  finite : (numerator : ℤ) (scale : ℕ) → Double

abbrev pub whole : ℤ → Double
whole z = finite z 0

-- `a <= b`
unfoldable pub le : Double → Double → Bool
le not_a_number b = false
le minus_infinity not_a_number = false
le minus_infinity minus_infinity = true
le minus_infinity plus_infinity = true
le minus_infinity (finite z k) = true
le plus_infinity not_a_number = false
le plus_infinity minus_infinity = false
le plus_infinity plus_infinity = true
le plus_infinity (finite z k) = false
le (finite a j) not_a_number = false
le (finite a j) minus_infinity = false
le (finite a j) plus_infinity = true
le (finite a j) (finite b k) = leb_ℤ (a *ℤ pos (2 ^ k)) (b *ℤ pos (2 ^ j))

abbrev pub is_nan : Double → Bool
is_nan not_a_number = true
is_nan _ = false

-- `Math.min` and `Math.max` of two numbers, of which none is NaN; with NaN they are NaN.
unfoldable pub least : Double → Double → Double
unfolding le
least a b =
    if is_nan a then not_a_number else if is_nan b then not_a_number else if le a b then a else b

unfoldable pub greatest : Double → Double → Double
unfolding le
greatest a b =
    if is_nan a then not_a_number else if is_nan b then not_a_number else if le a b then b else a

abbrev pub minus : Double → Double
minus not_a_number = not_a_number
minus minus_infinity = plus_infinity
minus plus_infinity = minus_infinity
minus (finite z k) = finite (neg z) k

-- Toward zero, as `| 0` does with a number that 32 bits hold; NaN and the infinities give 0.
unfoldable pub truncated : Double → ℤ
truncated not_a_number = pos 0
truncated minus_infinity = pos 0
truncated plus_infinity = pos 0
truncated (finite (pos z) k) = pos (z / 2 ^ k)
truncated (finite (negsuc z) k) = neg (pos (suc z / 2 ^ k))

leb_ℤ-total : (a b : ℤ) → leb_ℤ a b ≡ false → leb_ℤ b a ≡ true
leb_ℤ-total a b e = ground arith

-- Of two numbers that are not NaN one is at most the other.
pub le-total : (a b : Double) → is_nan a ≡ false → is_nan b ≡ false → le a b ≡ false → le b a ≡ true
unfolding le
le-total not_a_number b h k e = absurd (ground (arith, h))
le-total minus_infinity not_a_number h k e = absurd (ground (arith, k))
le-total minus_infinity minus_infinity h k e = refl
le-total minus_infinity plus_infinity h k e = absurd (ground (arith, e))
le-total minus_infinity (finite z j) h k e = absurd (ground (arith, e))
le-total plus_infinity not_a_number h k e = absurd (ground (arith, k))
le-total plus_infinity minus_infinity h k e = refl
le-total plus_infinity plus_infinity h k e = refl
le-total plus_infinity (finite z j) h k e = refl
le-total (finite z j) not_a_number h k e = absurd (ground (arith, k))
le-total (finite z j) minus_infinity h k e = refl
le-total (finite z j) plus_infinity h k e = absurd (ground (arith, e))
le-total (finite z j) (finite y i) h k e = leb_ℤ-total (z *ℤ pos (2 ^ i)) (y *ℤ pos (2 ^ j)) e

-- From the low to the high bound.
abbrev pub IsBetween : (low high value : Double) → Type 0
IsBetween low high value = (le low value ≡ true) × (le value high ≡ true)

-- A number that is cut to bounds lies between them, unless it is NaN.
pub least-greatest-IsBetween :
    (low high value : Double)
    → is_nan low ≡ false
    → is_nan high ≡ false
    → le low low ≡ true
    → le low high ≡ true
    → le high high ≡ true
    → (least high (greatest low value) ≡ not_a_number)
      ⊎ IsBetween low high (least high (greatest low value))
unfolding least greatest
least-greatest-IsBetween low high value h k same order top = elim (Bool-cases (is_nan value)) [
  | inl e ↦ inl (ground (arith, h, k, e))
  | inr e ↦ inr (
      ground (
        arith,
        h,
        k,
        e,
        le-total high value k e,
        le-total low value h e,
        le-total high low k h,
        same,
        order,
        top,
      ))
]
