-- ===== src/Prelude/Text.antt =====
-- Texts as keys, and their UTF-16 units, by which JavaScript measures and indexes them.
use Prim.Native.Nat.{ℕ, ◌+◌, ◌-◌, ◌/◌, ◌%◌}
use Prim.Native.Char.{code}
pub use Prim.Native.String.{String}
pub use text.Mathlib.Text.{◌==◌ as str_eq}
pub use text.Mathlib.TextEquality.{eq_iff}
use mathlib.Core.Path.{◌≡◌, refl, sym}
use mathlib.Core.Logic.{inl, inr}
use native.Mathlib.Omega.{arith}
use mathlib.Core.Bool.{true, false}
use mathlib.Core.Option.{Option, none, some}
use mathlib.Core.List.{List, [], ◌∷◌}
use aylink_extra.Prelude.Tests.{Bool-cases, ltb, if◌then◌else◌}

pub str_eq_sound : (a b : String) → str_eq a b ≡ true → a ≡ b
str_eq_sound a b e = (eq_iff a b).0 e

pub str_eq_refl : (a : String) → str_eq a a ≡ true
str_eq_refl a = (eq_iff a a).1 refl

pub str_ne_sym : (a b : String) → str_eq a b ≡ false → str_eq b a ≡ false
str_ne_sym a b e = elim (Bool-cases (str_eq b a)) [
  | inl f ↦
      absurd (ground (arith, e, sym ((eq_iff b a).0 f), (eq_iff a b).1 (sym ((eq_iff b a).0 f))))
  | inr f ↦ f
]

unfoldable pub lookup {ℓ} : {V : Type ℓ} → String → List (String × V) → Option V
lookup key [] = none
lookup key ((k, v) ∷ rest) = if str_eq k key then some v else lookup key rest

-- A character above the basic plane is a surrogate pair.
unfoldable pub units : String → List ℕ
units String.[] = []
units (String.◌∷◌ c s) =
    let rest = units s in
    if ltb (code c) 0x10000
    then code c ∷ rest
    else (0xd800 + (code c - 0x10000) / 1024) ∷ (0xdc00 + (code c - 0x10000) % 1024) ∷ rest
