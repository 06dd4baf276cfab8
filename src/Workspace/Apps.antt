-- ===== src/Workspace/Apps.antt =====
-- AYLink.Web/src/features/apps/useAppManagerTabs.ts, over the tabs of a page. What the route's query and the
-- workspace request hold is given; `trim` of JavaScript is a parameter.
use aylink_extra.Prelude.{
  Bool, true, false, not, ◌||◌, Option, none, some, if◌then◌else◌, get_or_else,
}
use aylink_extra.Prelude.Text.{String, str_eq}
use aylink_extra.Workspace.Tabs.{Json, TabKind, Tabs, open_tab, load_persisted_tabs}

-- `device_name` is none where a stored tab has none.
pub record AppManagerTab : Type 0 where
  pub key : String
  pub device_id : String
  pub device_name : Option String

pub record WorkspaceOpenRequest : Type 0 where
  pub device_id : String
  pub device_name : Option String

-- `{ ...old, ...tab }`, where the newer tab has every field. The tabs of this page are not edited.
abbrev pub with_title : String → AppManagerTab → AppManagerTab
with_title title tab = record tab { device_name = some (get_or_else tab.device_name title) }

abbrev pub app_tabs : Json AppManagerTab → TabKind
app_tabs json = record {
  Tab = AppManagerTab;
  key_of = λ tab. tab.key;
  merge = λ old tab. tab;
  Edit = ⊥;
  edit = λ e tab. tab;
  renew = with_title;
  json = json;
}

-- `name || getTitle()`
abbrev pub or_title : String → String → String
or_title title name = if str_eq name "" then title else name

abbrev pub build_tab_key : String → String
build_tab_key device_id = Prim.Native.String.◌++◌ device_id "::apps"

unfoldable pub create_tab_from_request : (title : String) → WorkspaceOpenRequest → AppManagerTab
create_tab_from_request title request = record {
  key = build_tab_key request.device_id;
  device_id = request.device_id;
  device_name = some (or_title title (get_or_else request.device_name ""));
}

unfoldable pub create_tab_from_route :
    (trim : String → String) (title : String) (is_apps_route_active : Bool)
    (device_id device_name : Option String)
    → Option AppManagerTab
create_tab_from_route trim title is_apps_route_active device_id device_name =
    let next_device_id = trim (get_or_else device_id "") in
    if not is_apps_route_active || str_eq next_device_id ""
    then none
    else some (record {
      key = build_tab_key next_device_id;
      device_id = next_device_id;
      device_name = some (or_title title (trim (get_or_else device_name "")));
    })

module _ (json : Json AppManagerTab) where
  abbrev app : TabKind
  app = app_tabs json

  abbrev pub open_route_tab : Option AppManagerTab → Tabs app → Tabs app × Bool
  open_route_tab none s = (s, false)
  open_route_tab (some tab) s = (open_tab app tab s, true)

  -- The request that waits goes before the route's query.
  unfoldable pub consume_incoming_tab :
      (title : String)
      → Option WorkspaceOpenRequest
      → (route_tab : Option AppManagerTab) → Tabs app
      → Tabs app × Bool
  consume_incoming_tab title (some request) route_tab s =
      (open_tab app (create_tab_from_request title request) s, true)
  consume_incoming_tab title none route_tab s = open_route_tab route_tab s

  unfoldable pub load_app_tabs : (is_readable : Bool) (title : String) → Tabs app → Tabs app
  load_app_tabs is_readable title s = load_persisted_tabs app is_readable title s
