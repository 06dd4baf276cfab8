-- ===== src/Workspace/Browsing.antt =====
-- Moving between the folders of a tab of AYLink.Web/src/features/files/useFileManagerTabs.ts.
use aylink_extra.Prelude.{
  ℕ, ◌+◌, ◌≡◌, ◌≢◌, inl, inr, refl, ◌∙◌, arith, List, [], ◌∷◌, true, some, if◌then◌else◌, is_some,
}
use aylink_extra.Prelude.{if_splits}
use aylink_extra.Prelude.Text.{String}
use aylink_extra.Workspace.Tabs.{
  Json, TabKind, IsJson, edit_tab, find_tab, update_active_tab, has_key, persist_tabs, Tabs,
}
use aylink_extra.Workspace.Files.{
  FileManagerTab, update_active_tab_path, file_tabs, current_path, path_of,
}
use aylink_extra.Workspace.Pages.{IsTabKind, update_active_tab-IsWorkspace}
use aylink_extra.Workspace.Paths.{normalize_path}
use aylink_extra.Workspace.Keys.{IsWorkspace, find_tab-has_key}

module _ (trim : List ℕ → List ℕ) (json : Json FileManagerTab) where
  abbrev pages : TabKind
  pages = file_tabs trim json

  pub file_tabs-IsTabKind : IsJson json → IsTabKind pages
  file_tabs-IsTabKind laws = record {
    merge_key = λ old tab. refl;
    edit_key = λ e tab. refl;
    renew_key = λ title tab. refl;
    is_json = laws;
  }

  find_tab-edit_tab :
      (key : String) (path : List ℕ) (tabs : List FileManagerTab)
      → has_key pages key tabs ≡ true
      → path_of (find_tab pages key (edit_tab pages key path tabs)) ≡ normalize_path trim path
  unfolding edit_tab find_tab
  find_tab-edit_tab key path [] h = absurd (ground arith)
  find_tab-edit_tab key path (tab ∷ rest) h = ground (arith, find_tab-edit_tab key path rest, h)

  -- On a well-formed page with tabs, going to a path keeps the page well-formed and the active tab, whose
  -- path is then the normal form of that path; the tabs and the active key are stored, each unless the
  -- storage refuses the write.
  pub update_active_tab_path_lem :
      (path : List ℕ) (s : Tabs pages)
      → IsJson json
      → IsWorkspace pages s
      → s.tabs ≢ []
      → IsWorkspace pages (update_active_tab_path trim json path s)
        × ((update_active_tab_path trim json path s).active_tab_key ≡ s.active_tab_key)
        × (current_path trim json (update_active_tab_path trim json path s)
            ≡ normalize_path trim path)
        × ((update_active_tab_path trim json path s).stored_tabs ≡ (
            if s.refuses s.writes
            then s.stored_tabs
            else some (json.stringify (update_active_tab_path trim json path s).tabs)))
        × ((update_active_tab_path trim json path s).stored_key
            ≡ (if s.refuses (s.writes + 1) then s.stored_key else some s.active_tab_key))
  unfolding update_active_tab_path update_active_tab current_path persist_tabs
  update_active_tab_path_lem path s laws h e =
      let active : has_key pages s.active_tab_key s.tabs ≡ true = elim h.active [
        | inl k ↦ absurd (e k.0)
        | inr k ↦ k
      ] in
      let found : is_some (find_tab pages s.active_tab_key s.tabs) ≡ true =
        find_tab-has_key pages s.active_tab_key s.tabs ∙ active in
      let (same, there, stored, stored_active) =
        if_splits
          (λ (d : Tabs pages).
            (d.active_tab_key ≡ s.active_tab_key)
            × (path_of (find_tab pages d.active_tab_key d.tabs) ≡ normalize_path trim path)
            × (d.stored_tabs
                ≡ (if s.refuses s.writes then s.stored_tabs else some (json.stringify d.tabs)))
            × (d.stored_key
                ≡ (if s.refuses (s.writes + 1) then s.stored_key else some s.active_tab_key)))
          (is_some (find_tab pages s.active_tab_key s.tabs)) _ _
          (λ f. (refl, find_tab-edit_tab s.active_tab_key path s.tabs active, refl, refl))
          (λ f. absurd (ground (arith, f, found))) in
      (
        update_active_tab-IsWorkspace pages (file_tabs-IsTabKind laws) path s h,
        same,
        there,
        stored,
        stored_active,
      )
