-- ===== src/Workspace/Files.antt =====
-- AYLink.Web/src/features/files/useFileManagerTabs.ts, over the tabs of a page.
use aylink_extra.Prelude.{
  ℕ, List, Bool, not, ◌&&◌, Option, none, some, if◌then◌else◌, is_some, get_or_else,
}
use aylink_extra.Prelude.Text.{String, str_eq}
use aylink_extra.Workspace.Tabs.{
  TabKind, Tabs, Json, find_tab, update_active_tab, load_persisted_tabs,
}
use aylink_extra.Workspace.Paths.{default_path, normalize_path, is_root}
use aylink_extra.Workspace.Apps.{or_title}

-- `device_name` and `path` are none where a stored tab has none.
pub record FileManagerTab : Type 0 where
  pub key : String
  pub device_id : String
  pub device_name : Option String
  pub path : Option (List ℕ)

-- `${deviceId || 'empty'}::files`
abbrev pub build_file_tab_key : String → String
build_file_tab_key device_id =
    Prim.Native.String.◌++◌ (if str_eq device_id "" then "empty" else device_id) "::files"

unfoldable pub create_file_tab : (title device_id device_name : String) → FileManagerTab
create_file_tab title device_id device_name = record {
  key = build_file_tab_key device_id;
  device_id = device_id;
  device_name = some (or_title title device_name);
  path = some default_path;
}

abbrev pub path_of : Option FileManagerTab → List ℕ
path_of none = default_path
path_of (some tab) = get_or_else tab.path default_path

module _ (trim : List ℕ → List ℕ) (json : Json FileManagerTab) where
  abbrev pub renew_tab : String → FileManagerTab → FileManagerTab
  renew_tab title tab = record tab {
    device_name = some (get_or_else tab.device_name title);
    path = some (normalize_path trim (get_or_else tab.path default_path));
  }

  abbrev pub set_path : List ℕ → FileManagerTab → FileManagerTab
  set_path path tab = record tab { path = some (normalize_path trim path) }

  -- `{ ...old, ...tab }`, where the newer tab has every field. An edit of a tab is another path.
  abbrev pub file_tabs : TabKind
  file_tabs = record {
    Tab = FileManagerTab;
    key_of = λ tab. tab.key;
    merge = λ old tab. tab;
    Edit = List ℕ;
    edit = set_path;
    renew = renew_tab;
    json = json;
  }

  unfoldable pub current_path : Tabs file_tabs → List ℕ
  current_path s = path_of (find_tab file_tabs s.active_tab_key s.tabs)

  unfoldable pub can_go_up : Tabs file_tabs → Bool
  can_go_up s =
      is_some (find_tab file_tabs s.active_tab_key s.tabs)
      && not (is_root trim (normalize_path trim (current_path s)))

  unfoldable pub update_active_tab_path : List ℕ → Tabs file_tabs → Tabs file_tabs
  update_active_tab_path path s = update_active_tab file_tabs path s

  unfoldable pub load_file_tabs :
      (is_readable : Bool) (title : String) → Tabs file_tabs → Tabs file_tabs
  load_file_tabs is_readable title s = load_persisted_tabs file_tabs is_readable title s
