-- ===== src/Workspace/Neighbours.antt =====
-- The tab that takes the place of a closed one in AYLink.Web/src/features/apps/useAppManagerTabs.ts and
-- useFileManagerTabs.ts.
use aylink_extra.Prelude.{
  ◌≡◌, inl, inr, refl, ap, sym, ◌∙◌, arith, List, [], ◌∷◌, ◌++◌, Bool, true, false, Option, none,
  some, if◌then◌else◌, Bool-cases, append-nil, subst,
}
use aylink_extra.Prelude.Text.{String, str_eq, str_eq_refl}
use aylink_extra.Workspace.Tabs.{TabKind, has_key, first_key, without, next_key}
use aylink_extra.Workspace.Keys.{IsActive, has_key-without}

module _ (kind : TabKind) where
  open kind use {Tab, key_of, merge}

  pub first_key-IsActive : (tabs : List Tab) → IsActive kind (first_key kind tabs) tabs
  first_key-IsActive [] = inl (refl, refl)
  first_key-IsActive (tab ∷ rest) = inr (ground (arith, str_eq_refl (key_of tab)))

  -- The key that takes the place is that of a tab that stays.
  abbrev before_list : Option Tab → List Tab
  before_list none = []
  before_list (some tab) = tab ∷ []

  beside :
      (b : Tab) (rest : List Tab) → has_key kind (first_key kind (rest ++ b ∷ [])) (b ∷ rest) ≡ true
  beside b [] = ground (arith, str_eq_refl (key_of b))
  beside b (r ∷ rs) = ground (arith, str_eq_refl (key_of r))

  IsActive-more :
      (b tab : Tab) (tabs : List Tab) (key : String)
      → IsActive kind key (tab ∷ tabs)
      → IsActive kind key (b ∷ tab ∷ tabs)
  IsActive-more b tab tabs key (inl e) = absurd (ground (arith, e.0))
  IsActive-more b tab tabs key (inr e) = inr (ground (arith, e))

  IsActive-same :
      (k l : String) (xs ys : List Tab) → l ≡ k → ys ≡ xs → IsActive kind k xs → IsActive kind l ys
  IsActive-same k l xs ys e f h =
      subst (λ z. IsActive kind z ys) (sym e) (subst (λ zs. IsActive kind k zs) (sym f) h)

  abbrev IsCase : Bool → String → Option Tab → Tab → List Tab → Type 0
  IsCase b key before tab rest =
      (next_key kind key before (tab ∷ rest) ≡ (
        if b
        then first_key kind (rest ++ before_list before)
        else next_key kind key (some tab) rest))
      × (without kind key (tab ∷ rest) ≡ (if b then rest else tab ∷ without kind key rest))

  next_key-IsCase :
      (b : Bool) (key : String) (before : Option Tab) (tab : Tab) (rest : List Tab)
      → str_eq (key_of tab) key ≡ b
      → IsCase b key before tab rest
  unfolding next_key without
  next_key-IsCase b key none tab rest e = ground (arith, e)
  next_key-IsCase b key (some x) tab rest e = ground (arith, e)

  pub next_key-IsActive :
      (key : String) (before : Option Tab) (tabs : List Tab)
      → has_key kind key tabs ≡ true
      → IsActive kind (next_key kind key before tabs) (before_list before ++ without kind key tabs)
  next_key-IsActive key before [] e = absurd (ground arith)
  next_key-IsActive key none (tab ∷ rest) e = elim (Bool-cases (str_eq (key_of tab) key)) [
    | inl f ↦
        let c = next_key-IsCase true key none tab rest f in
        IsActive-same (first_key kind rest) _ rest _ (c.0 ∙ ap (first_key kind) (append-nil rest))
          c.1 (first_key-IsActive rest)
    | inr f ↦
        let c = next_key-IsCase false key none tab rest f in
        IsActive-same (next_key kind key (some tab) rest) _ (tab ∷ without kind key rest) _ c.0 c.1
          (next_key-IsActive key (some tab) rest (ground (arith, e, f)))
  ]
  next_key-IsActive key (some b) (tab ∷ rest) e = elim (Bool-cases (str_eq (key_of tab) key)) [
    | inl f ↦
        let c = next_key-IsCase true key (some b) tab rest f in
        IsActive-same (first_key kind (rest ++ b ∷ [])) _ (b ∷ rest) _ c.0 (ap (λ us. b ∷ us) c.1)
          (inr (beside b rest))
    | inr f ↦
        let c = next_key-IsCase false key (some b) tab rest f in
        IsActive-same (next_key kind key (some tab) rest) _ (b ∷ tab ∷ without kind key rest) _ c.0
          (ap (λ us. b ∷ us) c.1)
          (IsActive-more b tab (without kind key rest) _
            (next_key-IsActive key (some tab) rest (ground (arith, e, f))))
  ]

  pub IsActive-without :
      (key active : String) (tabs : List Tab)
      → IsActive kind active tabs
      → has_key kind key tabs ≡ true
      → str_eq key active ≡ false
      → IsActive kind active (without kind key tabs)
  IsActive-without key active tabs (inl h) e f =
      absurd (ground (arith, ap (has_key kind key) h.0, e))
  IsActive-without key active tabs (inr h) e f = inr (has_key-without kind key active tabs f ∙ h)
