-- ===== src/Prelude/Negations.antt =====
-- Boolean tests that fail, as negations of what they test.
use mathlib.Core.Path.{◌≡◌, refl}
use mathlib.Core.Logic.{◌↔◌}
use mathlib.Core.Bool.{Bool, true, false, ◌&&◌, ◌||◌}
use native.Mathlib.Omega.{arith}

pub false_iff : (b : Bool) (A : Type 0) → (b ≡ true) ↔ A → (b ≡ false) ↔ (¬ A)
false_iff true A h = (λ e. absurd (ground (arith, e)), λ k. absurd (k (h.0 refl)))
false_iff false A h = (λ e a. absurd (let e' = h.1 a in ground (arith, e')), λ k. refl)

pub and_false_iff :
    (a b : Bool) (A B : Type 0) → (a ≡ true) ↔ A → (b ≡ true) ↔ B → ((a && b) ≡ false) ↔ (¬ (A × B))
and_false_iff a b A B h k = false_iff (a && b) (A × B) (
  λ e. (h.0 (ground (arith, e)), k.0 (ground (arith, e))),
  λ (x, y). let e = h.1 x in let f = k.1 y in ground (arith, e, f),
)

pub or_false_iff :
    (a b : Bool) (A B : Type 0)
    → (a ≡ true) ↔ A
    → (b ≡ true) ↔ B
    → ((a || b) ≡ false) ↔ ((¬ A) × (¬ B))
or_false_iff a b A B h k =
    let (to_a, from_a) = false_iff a A h in
    let (to_b, from_b) = false_iff b B k in
    (
      λ e. (to_a (ground (arith, e)), to_b (ground (arith, e))),
      λ (x, y). let e = from_a x in let f = from_b y in ground (arith, e, f),
    )
