-- ===== src/Workspace/Saved.antt =====
-- What the session storage holds for the tabs of AYLink.Web/src/features/apps/useAppManagerTabs.ts and
-- AYLink.Web/src/features/files/useFileManagerTabs.ts, and the page that is mounted from it.
use aylink_extra.Prelude.{
  ℕ, ◌+◌, ◌≡◌, inl, inr, refl, ap, sym, ◌∙◌, arith, List, [], ◌∷◌, ◌++◌, Bool, true, false, some,
  if◌then◌else◌,
}
use aylink_extra.Prelude.{subst, if_keeps, map, get_or_else}
use aylink_extra.Prelude.Text.{String}
use aylink_extra.Workspace.Tabs.{
  TabKind, Tabs, persist_tabs, open_tab, load_persisted_tabs, upsert_tab, no_tabs, activate_tab,
  has_key, restore_session_tabs, close_tab, first_key, update_active_tab, read_tabs,
}
use aylink_extra.Workspace.Pages.{
  IsTabKind, Call, after, mounted, opened, activated, after-IsWorkspace, closed, edited, step,
  read_tabs-stringify,
}
use aylink_extra.Workspace.Keys.{IsActive, IsWorkspace}

module _ (kind : TabKind) where
  open kind use {Tab, renew, json}

  abbrev pub HasNoMount : List (Call kind) → Type 0
  HasNoMount [] = Unit
  HasNoMount (mounted is_readable title ∷ cs) = ⊥
  HasNoMount (opened tab ∷ cs) = HasNoMount cs
  HasNoMount (activated tab_key ∷ cs) = HasNoMount cs
  HasNoMount (closed tab_key ∷ cs) = HasNoMount cs
  HasNoMount (edited e ∷ cs) = HasNoMount cs

  -- The storage takes every write, and holds what is shown.
  abbrev Accepts : Tabs kind → Type 0
  Accepts s = (i : ℕ) → s.refuses i ≡ false

  abbrev pub IsSaved : Tabs kind → Type 0
  IsSaved s =
      (s.stored_tabs ≡ some (json.stringify s.tabs)) × (s.stored_key ≡ some s.active_tab_key)

  persist_tabs-IsSaved : (s : Tabs kind) → Accepts s → IsSaved (persist_tabs kind s)
  unfolding persist_tabs
  persist_tabs-IsSaved s h = (rw (h s.writes) refl, rw (h (s.writes + 1)) refl)

  module _ (laws : IsTabKind kind) where
    step-refuses : (c : Call kind) (s : Tabs kind) → (step kind c s).refuses ≡ s.refuses
    unfolding open_tab upsert_tab persist_tabs activate_tab close_tab update_active_tab
        load_persisted_tabs
    step-refuses (mounted is_readable title) s = refl
    step-refuses (opened tab) s = refl
    step-refuses (activated key) s =
        if_keeps (λ (d : Tabs kind). d.refuses ≡ s.refuses) _ _ _ refl refl
    step-refuses (closed key) s = ground arith
    step-refuses (edited e) s = if_keeps (λ (d : Tabs kind). d.refuses ≡ s.refuses) _ _ _ refl refl

    after-Accepts :
        (refuses : ℕ → Bool) (cs : List (Call kind))
        → ((i : ℕ) → refuses i ≡ false)
        → Accepts (after kind refuses cs)
    unfolding after no_tabs
    after-Accepts refuses [] h = h
    after-Accepts refuses (c ∷ cs) h =
        subst (λ (f : ℕ → Bool). (i : ℕ) → f i ≡ false)
          (sym (step-refuses c (after kind refuses cs))) (after-Accepts refuses cs h)

    open_tab-IsSaved : (tab : Tab) (s : Tabs kind) → Accepts s → IsSaved (open_tab kind tab s)
    unfolding open_tab upsert_tab persist_tabs
    open_tab-IsSaved tab s h = (rw (h (s.writes + 2)) refl, rw (h (s.writes + 2 + 1)) refl)

    -- The calls up to the latest mounting keep what is stored up to date.
    later-IsSaved :
        (refuses : ℕ → Bool) (before : List (Call kind)) (tab : Tab) (later : List (Call kind))
        → ((i : ℕ) → refuses i ≡ false)
        → HasNoMount later
        → IsSaved (after kind refuses (later ++ opened tab ∷ before))
    unfolding after activate_tab close_tab update_active_tab
    later-IsSaved refuses before tab [] h k =
        open_tab-IsSaved tab (after kind refuses before) (after-Accepts refuses before h)
    later-IsSaved refuses before tab (mounted is_readable title ∷ cs) h k = elim k [ ]
    later-IsSaved refuses before tab (opened other ∷ cs) h k =
        open_tab-IsSaved other (after kind refuses (cs ++ opened tab ∷ before))
          (after-Accepts refuses (cs ++ opened tab ∷ before) h)
    later-IsSaved refuses before tab (activated key ∷ cs) h k =
        let accepts = after-Accepts refuses (cs ++ opened tab ∷ before) h in
        if_keeps IsSaved _ _ _ (later-IsSaved refuses before tab cs h k)
          (persist_tabs-IsSaved _ accepts)
    later-IsSaved refuses before tab (closed key ∷ cs) h k =
        let accepts = after-Accepts refuses (cs ++ opened tab ∷ before) h in
        if_keeps IsSaved _ _ _ (later-IsSaved refuses before tab cs h k)
          (if_keeps IsSaved _ _ _ (persist_tabs-IsSaved _ accepts) (persist_tabs-IsSaved _ accepts))
    later-IsSaved refuses before tab (edited e ∷ cs) h k =
        let accepts = after-Accepts refuses (cs ++ opened tab ∷ before) h in
        if_keeps IsSaved _ _ _ (persist_tabs-IsSaved _ accepts)
          (later-IsSaved refuses before tab cs h k)

    restored_key :
        (key : String) (tabs : List Tab)
        → IsActive kind key tabs
        → (if has_key kind key tabs then key else first_key kind tabs) ≡ key
    restored_key key tabs (inr h) = rw h refl
    restored_key key [] (inl h) = sym h.1
    restored_key key (tab ∷ rest) (inl h) = absurd (ground (arith, h.0))

    load_saved :
        (title : String) (s : Tabs kind)
        → IsWorkspace kind s
        → IsSaved s
        → ((load_persisted_tabs kind true title s).tabs ≡ map (renew title) s.tabs)
          × ((load_persisted_tabs kind true title s).active_tab_key ≡ s.active_tab_key)
    unfolding load_persisted_tabs restore_session_tabs
    load_saved title s h (e, f) =
        let same : read_tabs kind true s.stored_tabs ≡ s.tabs =
          ap (read_tabs kind true) e ∙ read_tabs-stringify kind laws s.tabs in
        let key : get_or_else s.stored_key "" ≡ s.active_tab_key = ap (λ o. get_or_else o "") f in
        (
          ap (map (renew title)) same,
          ap
                (λ ts.
                  if has_key kind (get_or_else s.stored_key "") ts
                  then get_or_else s.stored_key ""
                  else first_key kind ts)
                same
              ∙ (ap (λ k. if has_key kind k s.tabs then k else first_key kind s.tabs) key
                  ∙ restored_key s.active_tab_key s.tabs h.active),
        )

    -- For every kind of tab whose changes keep a tab's key and that JSON gives back, and a storage that
    -- refuses no write: after any calls, of which some open a tab and none mounts the page since then, a
    -- page that is mounted where the storage can be read has the same tabs, renewed, in the same order, and
    -- the same active tab.
    pub load_persisted_tabs-after :
        (title : String) (refuses : ℕ → Bool) (before : List (Call kind)) (tab : Tab)
        (later : List (Call kind))
        → ((i : ℕ) → refuses i ≡ false)
        → HasNoMount later
        → let s = after kind refuses (later ++ opened tab ∷ before) in
          ((load_persisted_tabs kind true title s).tabs ≡ map (renew title) s.tabs)
          × ((load_persisted_tabs kind true title s).active_tab_key ≡ s.active_tab_key)
    load_persisted_tabs-after title refuses before tab later h k =
        load_saved title (after kind refuses (later ++ opened tab ∷ before))
          (after-IsWorkspace kind laws refuses (later ++ opened tab ∷ before))
          (later-IsSaved refuses before tab later h k)
