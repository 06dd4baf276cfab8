-- ===== src/Workspace/Tests.antt =====
-- Runs of the tabs and the paths at concrete inputs.
use aylink_extra.Prelude.{
  Bool, false, ◌++◌, ℕ, ◌≡◌, refl, arith, List, [], ◌∷◌, true, none, some, if◌then◌else◌, ◌==◌, map,
  ◌+◌,
}
use aylink_extra.Workspace.Tabs.{
  load_persisted_tabs, no_tabs, open_tab, upsert_tab, upsert, persist_tabs, Json, IsJson, TabKind,
  Tabs,
}
use aylink_extra.Workspace.Keys.{IsWorkspace}
use aylink_extra.Workspace.Saved.{load_persisted_tabs-after}
use aylink_extra.Workspace.Pages.{
  Call, mounted, opened, activated, closed, after, after-IsWorkspace, IsTabKind,
}
use aylink_extra.Workspace.Apps.{AppManagerTab, app_tabs, create_tab_from_request, with_title}
use aylink_extra.Workspace.Paths.{
  normalize_path, starts_with_slash, ends_with_slash, collapse, join_remote_path,
}
use aylink_extra.Workspace.Normal.{
  IsNormal, IsTrim, has_no_backslash, normalize_path-IsNormal, normalize_path-normalize_path,
}
use aylink_extra.Workspace.Files.{
  file_tabs, current_path, update_active_tab_path, create_file_tab, FileManagerTab,
}
use aylink_extra.Workspace.Browsing.{update_active_tab_path_lem, file_tabs-IsTabKind}

abbrev phone : AppManagerTab
phone = create_tab_from_request "Apps" (record { device_id = "phone"; device_name = some "Phone" })

abbrev tablet : AppManagerTab
tablet = create_tab_from_request "Apps" (record { device_id = "tablet"; device_name = none })

-- A text is the list of tabs that it stands for.
abbrev plain_json : (Tab : Type 0) → Json Tab
plain_json Tab = record {
  Text = List Tab;
  is_empty = λ text. false;
  stringify = λ tabs. tabs;
  parse = λ text. map some text;
}

plain_json-IsJson : (Tab : Type 0) → IsJson (plain_json Tab)
plain_json-IsJson Tab = record { nonempty = λ tabs. refl; read_back = λ tabs. refl }

abbrev apps : TabKind
apps = app_tabs (plain_json AppManagerTab)

apps-IsTabKind : IsTabKind apps
apps-IsTabKind = record {
  merge_key = λ old tab. refl;
  edit_key = λ e tab. refl;
  renew_key = λ title tab. refl;
  is_json = plain_json-IsJson AppManagerTab;
}

-- The first write is refused.
abbrev refuses_first : ℕ → Bool
refuses_first i = i == 0

abbrev calls : List (Call apps)
calls =
    mounted true "Apps"
    ∷ closed "tablet::apps"
    ∷ activated "phone::apps"
    ∷ opened tablet
    ∷ opened phone
    ∷ mounted false "Apps"
    ∷ []

after-IsWorkspace_example : IsWorkspace apps (after apps refuses_first calls)
after-IsWorkspace_example = after-IsWorkspace apps apps-IsTabKind refuses_first calls

abbrev later_calls : List (Call apps)
later_calls = closed "phone::apps" ∷ []

load_persisted_tabs-after_example :
    let s = after apps (λ i. false) (later_calls ++ opened tablet ∷ calls) in
    ((load_persisted_tabs apps true "Apps" s).tabs ≡ map (with_title "Apps") s.tabs)
    × ((load_persisted_tabs apps true "Apps" s).active_tab_key ≡ s.active_tab_key)
load_persisted_tabs-after_example =
    load_persisted_tabs-after apps apps-IsTabKind "Apps" (λ i. false) calls tablet later_calls
      (λ i. refl) tt

-- The blanks at the front are taken off.
unfoldable trim_front : List ℕ → List ℕ
trim_front [] = []
trim_front (c ∷ rest) = let others = trim_front rest in if c == 32 then others else c ∷ rest

trim_front-part :
    (xs : List ℕ) → has_no_backslash xs ≡ true → has_no_backslash (trim_front xs) ≡ true
unfolding trim_front
trim_front-part [] h = h
trim_front-part (c ∷ rest) h = ground (arith, trim_front-part rest, h)

trim_front-fixed :
    (xs : List ℕ) → starts_with_slash xs ≡ true → ends_with_slash xs ≡ true → trim_front xs ≡ xs
unfolding trim_front
trim_front-fixed [] s e = refl
trim_front-fixed (c ∷ rest) s e = ground (arith, s)

trim_front-IsTrim : IsTrim trim_front
trim_front-IsTrim = record { part = trim_front-part; fixed = trim_front-fixed }

-- ' a\\b//c'
abbrev path : List ℕ
path = 32 ∷ 97 ∷ 92 ∷ 98 ∷ 47 ∷ 47 ∷ 99 ∷ []

normalize_path-test : normalize_path trim_front path ≡ 47 ∷ 97 ∷ 47 ∷ 98 ∷ 47 ∷ 99 ∷ 47 ∷ []
unfolding normalize_path trim_front collapse
normalize_path-test = refl

-- The folder 'b\c' of '/a/' is joined to '/a/b/c/'.
join_remote_path-test :
    join_remote_path trim_front (47 ∷ 97 ∷ 47 ∷ []) (98 ∷ 92 ∷ 99 ∷ [])
    ≡ 47 ∷ 97 ∷ 47 ∷ 98 ∷ 47 ∷ 99 ∷ 47 ∷ []
unfolding join_remote_path normalize_path trim_front collapse
join_remote_path-test = refl

normalize_path-IsNormal_example : IsNormal (normalize_path trim_front path)
normalize_path-IsNormal_example = normalize_path-IsNormal trim_front trim_front-IsTrim path

normalize_path-normalize_path_example :
    normalize_path trim_front (normalize_path trim_front path) ≡ normalize_path trim_front path
normalize_path-normalize_path_example =
    normalize_path-normalize_path trim_front trim_front-IsTrim path

abbrev files : TabKind
files = file_tabs trim_front (plain_json FileManagerTab)

abbrev page : Tabs files
page = after files refuses_first (opened (create_file_tab "Files" "phone" "Phone") ∷ [])

update_active_tab_path_lem_example :
    IsWorkspace files (update_active_tab_path trim_front (plain_json FileManagerTab) path page)
    × ((update_active_tab_path trim_front (plain_json FileManagerTab) path page).active_tab_key
        ≡ page.active_tab_key)
    × (current_path trim_front
          (plain_json FileManagerTab)
          (update_active_tab_path trim_front (plain_json FileManagerTab) path page)
        ≡ normalize_path trim_front path)
    × ((update_active_tab_path trim_front (plain_json FileManagerTab) path page).stored_tabs ≡ (
        if page.refuses page.writes
        then page.stored_tabs
        else some (update_active_tab_path trim_front (plain_json FileManagerTab) path page).tabs))
    × ((update_active_tab_path trim_front (plain_json FileManagerTab) path page).stored_key
        ≡ (if page.refuses (page.writes + 1) then page.stored_key else some page.active_tab_key))
unfolding after open_tab upsert_tab upsert no_tabs persist_tabs
update_active_tab_path_lem_example =
    update_active_tab_path_lem trim_front (plain_json FileManagerTab) path page
      (plain_json-IsJson FileManagerTab)
      (after-IsWorkspace files
        (file_tabs-IsTabKind trim_front (plain_json FileManagerTab)
          (plain_json-IsJson FileManagerTab))
        refuses_first (opened (create_file_tab "Files" "phone" "Phone") ∷ []))
      (λ e. ground (arith, e))
