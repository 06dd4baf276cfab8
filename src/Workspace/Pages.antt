-- ===== src/Workspace/Pages.antt =====
-- Every run of the tabs of AYLink.Web/src/features/apps/useAppManagerTabs.ts and
-- AYLink.Web/src/features/files/useFileManagerTabs.ts, and their restoring after it.
use aylink_extra.Prelude.{
  ℕ, ◌+◌, ◌≡◌, inl, inr, refl, ap, sym, ◌∙◌, arith, List, [], ◌∷◌, Bool, true, false, not, ◌||◌,
  Option, none, some, if◌then◌else◌, is_some,
}
use aylink_extra.Prelude.{subst, if_keeps, if_splits, map}
use aylink_extra.Prelude.Text.{String, str_eq, str_eq_refl}
use aylink_extra.Workspace.Tabs.{
  TabKind, IsJson, Tabs, persist_tabs, are_tabs, open_tab, activate_tab, close_tab,
  update_active_tab, read_tabs, load_persisted_tabs, no_tabs, upsert_tab, has_key,
  restore_session_tabs, first_key, upsert, without, find_tab, edit_tab,
}
use aylink_extra.Workspace.Keys.{
  IsActive, IsWorkspace, HasDistinctKeys, has_key-renew, upsert-HasDistinctKeys, IsStored,
  without-HasDistinctKeys, has_key-edit_tab, renew-HasDistinctKeys, has_key-without_self,
  has_key-without, has_key-upsert, persist_tabs-IsWorkspace, edit_tab-HasDistinctKeys,
  find_tab-has_key,
}
use aylink_extra.Workspace.Neighbours.{first_key-IsActive, IsActive-without, next_key-IsActive}

-- What the kinds of tabs keep: a change of a tab keeps its key, and JSON gives tabs back.
pub record IsTabKind (kind : TabKind) : Type 0 where
  pub merge_key : (old tab : kind.Tab) → kind.key_of (kind.merge old tab) ≡ kind.key_of tab
  pub edit_key : (e : kind.Edit) (tab : kind.Tab) → kind.key_of (kind.edit e tab) ≡ kind.key_of tab
  pub renew_key :
      (title : String) (tab : kind.Tab) → kind.key_of (kind.renew title tab) ≡ kind.key_of tab
  pub is_json : IsJson kind.json

module _ (kind : TabKind) where
  open kind use {Tab, key_of, merge, Edit, edit, renew, json}

  pub data Call : Type 0 where
    mounted : (is_readable : Bool) (title : String) → Call
    opened : Tab → Call
    activated closed : (tab_key : String) → Call
    edited : Edit → Call

  abbrev pub step : Call → Tabs kind → Tabs kind
  step (mounted is_readable title) s = load_persisted_tabs kind is_readable title s
  step (opened tab) s = open_tab kind tab s
  step (activated tab_key) s = activate_tab kind tab_key s
  step (closed tab_key) s = close_tab kind tab_key s
  step (edited e) s = update_active_tab kind e s

  -- The page after some calls, the latest first.
  unfoldable pub after : (refuses : ℕ → Bool) → List Call → Tabs kind
  after refuses [] = no_tabs kind refuses
  after refuses (c ∷ cs) = step c (after refuses cs)

  are_tabs-some : (tabs : List Tab) → are_tabs kind (map some tabs) ≡ tabs
  are_tabs-some [] = refl
  are_tabs-some (tab ∷ rest) = ap (λ us. tab ∷ us) (are_tabs-some rest)

  module _ (laws : IsTabKind kind) where
    open_tab-IsWorkspace :
        (tab : Tab) (s : Tabs kind) → IsWorkspace kind s → IsWorkspace kind (open_tab kind tab s)
    unfolding open_tab upsert_tab persist_tabs
    open_tab-IsWorkspace tab s h =
        let distinct = upsert-HasDistinctKeys kind laws.merge_key tab s.tabs h.distinct in
        let kept =
          if_keeps (IsStored kind) (s.refuses s.writes) _ _ h.stored
            (inr (upsert kind tab s.tabs, refl, distinct)) in
        let shown =
          if_keeps (IsStored kind) (s.refuses (s.writes + 2)) _ _ kept
            (inr (upsert kind tab s.tabs, refl, distinct)) in
        record {
          distinct = distinct;
          active = inr (
              ground (
                arith,
                has_key-upsert kind laws.merge_key (key_of tab) tab s.tabs,
                str_eq_refl (key_of tab),
              ));
          stored = shown;
        }

    activate_tab-IsWorkspace :
        (key : String) (s : Tabs kind)
        → IsWorkspace kind s
        → IsWorkspace kind (activate_tab kind key s)
    unfolding activate_tab persist_tabs
    activate_tab-IsWorkspace key s h =
        if_splits (IsWorkspace kind) (str_eq key s.active_tab_key || not (has_key kind key s.tabs))
          _ _ (λ e. h)
          (λ e. record {
            distinct = h.distinct;
            active = inr (ground (arith, e));
            stored =
                if_keeps (IsStored kind) (s.refuses s.writes) _ _ h.stored
                  (inr (s.tabs, refl, h.distinct));
          })

    close_tab-IsWorkspace :
        (key : String) (s : Tabs kind)
        → IsWorkspace kind s
        → IsWorkspace kind (close_tab kind key s)
    unfolding close_tab persist_tabs
    close_tab-IsWorkspace key s h =
        let distinct = without-HasDistinctKeys kind key s.tabs h.distinct in
        let stored =
          if_keeps (IsStored kind) (s.refuses s.writes) _ _ h.stored
            (inr (without kind key s.tabs, refl, distinct)) in
        if_splits (IsWorkspace kind) (not (has_key kind key s.tabs)) _ _ (λ e. h)
          (λ e.
            if_splits (IsWorkspace kind) (not (str_eq key s.active_tab_key)) _ _
              (λ f. record {
                distinct = distinct;
                active =
                    IsActive-without kind key s.active_tab_key s.tabs h.active (ground (arith, e))
                      (ground (arith, f));
                stored = stored;
              })
              (λ f. record {
                distinct = distinct;
                active = next_key-IsActive kind key none s.tabs (ground (arith, e));
                stored = stored;
              }))

    pub update_active_tab-IsWorkspace :
        (e : Edit) (s : Tabs kind)
        → IsWorkspace kind s
        → IsWorkspace kind (update_active_tab kind e s)
    unfolding update_active_tab
    update_active_tab-IsWorkspace e s h =
        let same = has_key-edit_tab kind laws.edit_key s.active_tab_key s.active_tab_key e s.tabs in
        if_splits (IsWorkspace kind) (is_some (find_tab kind s.active_tab_key s.tabs)) _ _
          (λ f.
            persist_tabs-IsWorkspace kind
              (record s { tabs = edit_tab kind s.active_tab_key e s.tabs })
              (record {
                distinct =
                    edit_tab-HasDistinctKeys kind laws.edit_key s.active_tab_key e s.tabs
                      h.distinct;
                active = inr (same ∙ (sym (find_tab-has_key kind s.active_tab_key s.tabs) ∙ f));
                stored = h.stored;
              }))
          (λ f. h)

    pub read_tabs-stringify :
        (tabs : List Tab) → read_tabs kind true (some (json.stringify tabs)) ≡ tabs
    unfolding read_tabs
    read_tabs-stringify tabs =
        rw (laws.is_json.nonempty tabs, laws.is_json.read_back tabs) (are_tabs-some tabs)

    read_tabs-HasDistinctKeys :
        (is_readable : Bool) (stored : Option json.Text)
        → IsStored kind stored
        → HasDistinctKeys kind (read_tabs kind is_readable stored)
    unfolding read_tabs HasDistinctKeys
    read_tabs-HasDistinctKeys is_readable none h = tt
    read_tabs-HasDistinctKeys false (some text) h = tt
    read_tabs-HasDistinctKeys true (some text) (inl e) = absurd (ground (arith, e))
    read_tabs-HasDistinctKeys true (some text) (inr (tabs, e, d)) =
        subst (λ o. HasDistinctKeys kind (read_tabs kind true o)) (sym e)
          (subst (HasDistinctKeys kind) (sym (read_tabs-stringify tabs)) d)

    restored-IsActive :
        (key : String) (tabs : List Tab)
        → IsActive kind (if has_key kind key tabs then key else first_key kind tabs) tabs
    restored-IsActive key tabs =
        if_splits (λ k. IsActive kind k tabs) (has_key kind key tabs) _ _ (λ e. inr e)
          (λ e. first_key-IsActive kind tabs)

    renew-IsActive :
        (key title : String) (tabs : List Tab)
        → IsActive kind key tabs
        → IsActive kind key (map (renew title) tabs)
    renew-IsActive key title tabs (inl (e, f)) = inl (ap (map (renew title)) e, f)
    renew-IsActive key title tabs (inr e) =
        inr (has_key-renew kind laws.renew_key key title tabs ∙ e)

    load_persisted_tabs-IsWorkspace :
        (is_readable : Bool) (title : String) (s : Tabs kind)
        → IsWorkspace kind s
        → IsWorkspace kind (load_persisted_tabs kind is_readable title s)
    unfolding load_persisted_tabs restore_session_tabs
    load_persisted_tabs-IsWorkspace is_readable title s h =
        let tabs = read_tabs kind is_readable s.stored_tabs in
        record {
          distinct =
              renew-HasDistinctKeys kind laws.renew_key title tabs
                (read_tabs-HasDistinctKeys is_readable s.stored_tabs h.stored);
          active = renew-IsActive _ title tabs (restored-IsActive _ tabs);
          stored = h.stored;
        }

    step-IsWorkspace : (c : Call) (s : Tabs kind) → IsWorkspace kind s → IsWorkspace kind (step c s)
    step-IsWorkspace (mounted is_readable title) s h =
        load_persisted_tabs-IsWorkspace is_readable title s h
    step-IsWorkspace (opened tab) s h = open_tab-IsWorkspace tab s h
    step-IsWorkspace (activated key) s h = activate_tab-IsWorkspace key s h
    step-IsWorkspace (closed key) s h = close_tab-IsWorkspace key s h
    step-IsWorkspace (edited e) s h = update_active_tab-IsWorkspace e s h

    -- For every kind of tab whose changes keep a tab's key and that JSON gives back: after any calls from an
    -- empty storage on, which mount the page (and load what the storage holds, if it can be read), open,
    -- activate or close a tab or go to another path, and whatever writes the storage refuses, the keys of
    -- the tabs are distinct, one of them is active unless there is no tab, and what the storage holds, if
    -- anything, is a list of tabs with distinct keys.
    pub after-IsWorkspace :
        (refuses : ℕ → Bool) (cs : List Call) → IsWorkspace kind (after refuses cs)
    unfolding after no_tabs HasDistinctKeys
    after-IsWorkspace refuses [] = record {
      distinct = tt;
      active = inl (refl, refl);
      stored = inl refl;
    }
    after-IsWorkspace refuses (c ∷ cs) =
        step-IsWorkspace c (after refuses cs) (after-IsWorkspace refuses cs)

    -- After any calls, closing a tab removes its key and no other.
    pub close_tab-has_key :
        (refuses : ℕ → Bool) (cs : List Call) (key other : String)
        → (has_key kind key (close_tab kind key (after refuses cs)).tabs ≡ false)
          × (str_eq key other ≡ false
              → has_key kind other (close_tab kind key (after refuses cs)).tabs
                ≡ has_key kind other (after refuses cs).tabs)
    unfolding close_tab persist_tabs
    close_tab-has_key refuses cs key other =
        let s = after refuses cs in
        let h = after-IsWorkspace refuses cs in
        let gone = has_key-without_self kind key s.tabs h.distinct in
        (ground (arith, gone), λ e. ground (arith, has_key-without kind key other s.tabs e))
