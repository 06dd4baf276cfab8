-- ===== src/Workspace/Keys.antt =====
-- The keys of the tabs of AYLink.Web/src/features/apps/useAppManagerTabs.ts and useFileManagerTabs.ts over every
-- run.
use aylink_extra.Prelude.{
  ap, is_some, if_keeps, map, Option, none, some, ◌≡◌, ◌⊎◌, inl, inr, refl, ◌∙◌, arith, List, [],
  ◌∷◌, true, false, if◌then◌else◌, Bool-cases, if_splits,
}
use aylink_extra.Prelude.Text.{String, str_eq, str_eq_sound, str_ne_sym}
use aylink_extra.Workspace.Tabs.{
  find_tab, edit_tab, persist_tabs, TabKind, Tabs, has_key, upsert, without,
}

module _ (kind : TabKind) where
  open kind use {Tab, key_of, merge, Edit, edit, renew, json}

  unfoldable pub HasDistinctKeys : List Tab → Type 0
  HasDistinctKeys [] = Unit
  HasDistinctKeys (tab ∷ rest) = (has_key kind (key_of tab) rest ≡ false) × HasDistinctKeys rest

  -- A page without tabs has no active one, and one with tabs has one that is active.
  abbrev pub IsActive : String → List Tab → Type 0
  IsActive key tabs = ((tabs ≡ []) × (key ≡ "")) ⊎ (has_key kind key tabs ≡ true)

  -- What the storage holds, if anything, are the tabs of some page with distinct keys.
  abbrev pub IsStored : Option json.Text → Type 0
  IsStored stored =
      (stored ≡ none)
      ⊎ ((tabs : List Tab) × (stored ≡ some (json.stringify tabs)) × HasDistinctKeys tabs)

  pub record IsWorkspace (s : Tabs kind) : Type 0 where
    pub distinct : HasDistinctKeys s.tabs
    pub active : IsActive s.active_tab_key s.tabs
    pub stored : IsStored s.stored_tabs

  pub persist_tabs-IsWorkspace : (s : Tabs kind) → IsWorkspace s → IsWorkspace (persist_tabs kind s)
  unfolding persist_tabs
  persist_tabs-IsWorkspace s h = record {
    distinct = h.distinct;
    active = h.active;
    stored = if_keeps IsStored (s.refuses s.writes) _ _ h.stored (inr (s.tabs, refl, h.distinct));
  }

  pub has_key-upsert :
      (merge_key : (old tab : Tab) → key_of (merge old tab) ≡ key_of tab)
      → (key : String) (tab : Tab) (tabs : List Tab)
      → has_key kind key (upsert kind tab tabs)
        ≡ (if str_eq (key_of tab) key then true else has_key kind key tabs)
  unfolding upsert
  has_key-upsert m key tab [] = refl
  has_key-upsert m key tab (old ∷ rest) = elim (Bool-cases (str_eq (key_of old) (key_of tab))) [
    | inl e ↦ ground (arith, m old tab, str_eq_sound (key_of old) (key_of tab) e, e)
    | inr e ↦ ground (arith, has_key-upsert m key tab rest, e)
  ]

  pub upsert-HasDistinctKeys :
      (merge_key : (old tab : Tab) → key_of (merge old tab) ≡ key_of tab)
      → (tab : Tab) (tabs : List Tab) → HasDistinctKeys tabs
      → HasDistinctKeys (upsert kind tab tabs)
  unfolding upsert HasDistinctKeys
  upsert-HasDistinctKeys m tab [] h = (refl, tt)
  upsert-HasDistinctKeys m tab (old ∷ rest) h =
      if_splits HasDistinctKeys (str_eq (key_of old) (key_of tab)) _ _
        (λ e. (ground (arith, m old tab, str_eq_sound (key_of old) (key_of tab) e, h.0), h.1))
        (λ e. (
          ground (
            arith,
            has_key-upsert m (key_of old) tab rest,
            str_ne_sym (key_of old) (key_of tab) e,
            h.0,
          ),
          upsert-HasDistinctKeys m tab rest h.1,
        ))

  pub has_key-without :
      (key other : String) (tabs : List Tab)
      → str_eq key other ≡ false
      → has_key kind other (without kind key tabs) ≡ has_key kind other tabs
  unfolding without
  has_key-without key other [] e = refl
  has_key-without key other (tab ∷ rest) e = elim (Bool-cases (str_eq (key_of tab) key)) [
    | inl f ↦ ground (arith, e, f, str_eq_sound (key_of tab) key f)
    | inr f ↦ ground (arith, has_key-without key other rest e, f)
  ]

  pub without-HasDistinctKeys :
      (key : String) (tabs : List Tab)
      → HasDistinctKeys tabs
      → HasDistinctKeys (without kind key tabs)
  unfolding without HasDistinctKeys
  without-HasDistinctKeys key [] h = h
  without-HasDistinctKeys key (tab ∷ rest) h =
      if_splits HasDistinctKeys (str_eq (key_of tab) key) _ _ (λ e. h.1)
        (λ e. (
          has_key-without key (key_of tab) rest (str_ne_sym (key_of tab) key e) ∙ h.0,
          without-HasDistinctKeys key rest h.1,
        ))

  -- A closed tab is gone.
  pub has_key-without_self :
      (key : String) (tabs : List Tab)
      → HasDistinctKeys tabs
      → has_key kind key (without kind key tabs) ≡ false
  unfolding without HasDistinctKeys
  has_key-without_self key [] h = refl
  has_key-without_self key (tab ∷ rest) h = elim (Bool-cases (str_eq (key_of tab) key)) [
    | inl f ↦ ground (arith, h.0, f, str_eq_sound (key_of tab) key f)
    | inr f ↦ ground (arith, has_key-without_self key rest h.1, f)
  ]

  -- An edit and a renewal keep the keys.
  module _ (edit_key : (e : Edit) (tab : Tab) → key_of (edit e tab) ≡ key_of tab) where
    pub has_key-edit_tab :
        (key other : String) (e : Edit) (tabs : List Tab)
        → has_key kind other (edit_tab kind key e tabs) ≡ has_key kind other tabs
    unfolding edit_tab
    has_key-edit_tab key other e [] = refl
    has_key-edit_tab key other e (tab ∷ rest) =
        ground (arith, edit_key e tab, has_key-edit_tab key other e rest)

    pub edit_tab-HasDistinctKeys :
        (key : String) (e : Edit) (tabs : List Tab)
        → HasDistinctKeys tabs
        → HasDistinctKeys (edit_tab kind key e tabs)
    unfolding edit_tab HasDistinctKeys
    edit_tab-HasDistinctKeys key e [] h = h
    edit_tab-HasDistinctKeys key e (tab ∷ rest) h =
        if_keeps HasDistinctKeys (str_eq (key_of tab) key) _ _
          (ap (λ k. has_key kind k rest) (edit_key e tab) ∙ h.0, h.1)
          (has_key-edit_tab key (key_of tab) e rest ∙ h.0, edit_tab-HasDistinctKeys key e rest h.1)

  module _ (renew_key : (title : String) (tab : Tab) → key_of (renew title tab) ≡ key_of tab) where
    pub has_key-renew :
        (key title : String) (tabs : List Tab)
        → has_key kind key (map (renew title) tabs) ≡ has_key kind key tabs
    has_key-renew key title [] = refl
    has_key-renew key title (tab ∷ rest) =
        ground (arith, renew_key title tab, has_key-renew key title rest)

    pub renew-HasDistinctKeys :
        (title : String) (tabs : List Tab)
        → HasDistinctKeys tabs
        → HasDistinctKeys (map (renew title) tabs)
    unfolding HasDistinctKeys
    renew-HasDistinctKeys title [] h = h
    renew-HasDistinctKeys title (tab ∷ rest) h = (
      ap (λ k. has_key kind k (map (renew title) rest)) (renew_key title tab)
          ∙ (has_key-renew (key_of tab) title rest ∙ h.0),
      renew-HasDistinctKeys title rest h.1,
    )

  pub find_tab-has_key :
      (key : String) (tabs : List Tab) → is_some (find_tab kind key tabs) ≡ has_key kind key tabs
  unfolding find_tab
  find_tab-has_key key [] = refl
  find_tab-has_key key (tab ∷ rest) = ground (arith, find_tab-has_key key rest)
