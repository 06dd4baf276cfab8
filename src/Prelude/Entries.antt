-- ===== src/Prelude/Entries.antt =====
-- A `Map` from texts as an association list in the order of insertion, and a `Set` of texts as a list.
use Prim.Native.Nat.{ℕ}
use mathlib.Core.Path.{◌≡◌, refl, ap, ◌∙◌}
use mathlib.Core.Logic.{inl, inr}
use mathlib.Core.Bool.{Bool, false, not}
use mathlib.Core.Option.{Option, none, some}
use mathlib.Core.List.{List, [], ◌∷◌, ◌++◌}
use native.Mathlib.Omega.{arith}
use aylink_extra.Prelude.Tests.{◌==◌, if◌then◌else◌, Bool-cases}
use aylink_extra.Prelude.Lists.{any, keep}
use aylink_extra.Prelude.Text.{String, str_eq, str_eq_sound, str_eq_refl}

-- An assignment to the entry of a key, in its place or behind the others; and a deletion.
module _ {ℓ} {V : Type ℓ} where
  unfoldable pub get_entry : String → List (String × V) → Option V
  get_entry key [] = none
  get_entry key ((k, v) ∷ rest) = if str_eq k key then some v else get_entry key rest

  unfoldable pub set_entry : String → V → List (String × V) → List (String × V)
  set_entry key v [] = (key, v) ∷ []
  set_entry key v ((k, w) ∷ rest) =
      if str_eq k key then (k, v) ∷ rest else (k, w) ∷ set_entry key v rest

  unfoldable pub delete_entry : String → List (String × V) → List (String × V)
  delete_entry key [] = []
  delete_entry key ((k, w) ∷ rest) = if str_eq k key then rest else (k, w) ∷ delete_entry key rest

-- A `Map` from numbers is a function, and this its assignment.
abbrev pub put {ℓ} : {V : Type ℓ} → ℕ → V → (ℕ → V) → ℕ → V
put id v f other = if id == other then v else f other

abbrev pub has_element : String → List String → Bool
has_element id ids = any (λ j. str_eq j id) ids

abbrev pub add_element : String → List String → List String
add_element id ids = if has_element id ids then ids else ids ++ id ∷ []

abbrev pub delete_element : String → List String → List String
delete_element id ids = keep (λ j. not (str_eq j id)) ids

module _ {V : Type 0} where
  pub get_entry-set_entry :
      (key : String) (v : V) (entries : List (String × V))
      → get_entry key (set_entry key v entries) ≡ some v
  unfolding get_entry set_entry
  get_entry-set_entry key v [] = ground (arith, str_eq_refl key)
  get_entry-set_entry key v ((k, w) ∷ rest) = ground (arith, get_entry-set_entry key v rest)

  pub delete_entry-set_entry :
      (key : String) (v : V) (entries : List (String × V))
      → get_entry key entries ≡ none
      → delete_entry key (set_entry key v entries) ≡ entries
  unfolding get_entry set_entry delete_entry
  delete_entry-set_entry key v [] absent = ground (arith, str_eq_refl key)
  delete_entry-set_entry key v ((k, w) ∷ rest) absent = elim (Bool-cases (str_eq k key)) [
    | inl e ↦ absurd (ground arith)
    | inr e ↦
        rw (e, e)
          (ap (λ (t : List (String × V)). (k, w) ∷ t)
            (delete_entry-set_entry key v rest (ground arith)))
  ]

  pub get_entry-set_entry_other :
      (other key : String) (v : V) (entries : List (String × V))
      → str_eq key other ≡ false
      → get_entry other (set_entry key v entries) ≡ get_entry other entries
  unfolding get_entry set_entry
  get_entry-set_entry_other other key v [] e = ground arith
  get_entry-set_entry_other other key v ((k, w) ∷ rest) e = elim (Bool-cases (str_eq k key)) [
    | inl f ↦
        (let g : str_eq k other ≡ false = ap (λ z. str_eq z other) (str_eq_sound k key f) ∙ e in
          rw (f, g) refl)
    | inr f ↦ ground (arith, get_entry-set_entry_other other key v rest e)
  ]

  pub get_entry-delete_entry_other :
      (other key : String) (entries : List (String × V))
      → str_eq key other ≡ false
      → get_entry other (delete_entry key entries) ≡ get_entry other entries
  unfolding get_entry delete_entry
  get_entry-delete_entry_other other key [] e = refl
  get_entry-delete_entry_other other key ((k, w) ∷ rest) e = elim (Bool-cases (str_eq k key)) [
    | inl f ↦
        (let g : str_eq k other ≡ false = ap (λ z. str_eq z other) (str_eq_sound k key f) ∙ e in
          rw (f, g) refl)
    | inr f ↦ ground (arith, get_entry-delete_entry_other other key rest e)
  ]
