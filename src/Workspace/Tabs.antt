-- ===== src/Workspace/Tabs.antt =====
-- The tabs of a page: AYLink.Web/src/features/workspace/sessionTabs.ts, and what is the same in
-- features/apps/useAppManagerTabs.ts and features/files/useFileManagerTabs.ts. What the session storage
-- holds is part of the state, where a write that it refuses changes nothing (core/storage/browserStorage.ts).
-- A kind of tab has a key, ways to be updated by a newer one, edited and renewed, and its texts of JSON.
use aylink_extra.Prelude.{
  ◌≡◌, false, get_or_else, is_some, ℕ, ◌+◌, List, [], ◌∷◌, ◌++◌, Bool, not, ◌||◌, Option, none,
  some, if◌then◌else◌, any, map,
}
use aylink_extra.Prelude.Text.{String, str_eq}

-- The texts that `JSON.stringify` makes of a list of tabs, and what `JSON.parse` and the filter of the tabs
-- make of a text: nothing where it is no list, and none for an entry that is no tab.
pub record Json (Tab : Type 0) : Type 1 where
  pub Text : Type 0
  pub is_empty : Text → Bool
  pub stringify : List Tab → Text
  pub parse : Text → List (Option Tab)

-- What is documented of them: a list of tabs, whose fields are texts, is read back as it was.
pub record IsJson {Tab : Type 0} (json : Json Tab) : Type 0 where
  pub nonempty : (tabs : List Tab) → json.is_empty (json.stringify tabs) ≡ false
  pub read_back : (tabs : List Tab) → json.parse (json.stringify tabs) ≡ map some tabs

pub record TabKind : Type 1 where
  pub Tab : Type 0
  pub key_of : Tab → String
  pub merge : Tab → Tab → Tab
  pub Edit : Type 0
  pub edit : Edit → Tab → Tab
  pub renew : (title : String) → Tab → Tab
  pub json : Json Tab

module _ (kind : TabKind) where
  open kind use {Tab, key_of, merge, Edit, edit, renew, json}

  -- `refuses` tells whether the storage refuses a write, by its number, of which `writes` is the next;
  -- `changes` counts the calls of `onTabChanged`.
  pub record Tabs : Type 0 where
    pub tabs : List Tab
    pub active_tab_key : String
    pub stored_tabs : Option json.Text
    pub stored_key : Option String
    pub refuses : ℕ → Bool
    pub writes : ℕ
    pub changes : ℕ

  -- A page that is not mounted yet, with an empty storage.
  unfoldable pub no_tabs : (refuses : ℕ → Bool) → Tabs
  no_tabs refuses = record {
    tabs = [];
    active_tab_key = "";
    stored_tabs = none;
    stored_key = none;
    refuses = refuses;
    writes = 0;
    changes = 0;
  }

  abbrev pub has_key : String → List Tab → Bool
  has_key key tabs = any (λ tab. str_eq (key_of tab) key) tabs

  unfoldable pub persist_tabs : Tabs → Tabs
  persist_tabs s = record s {
    stored_tabs = if s.refuses s.writes then s.stored_tabs else some (json.stringify s.tabs);
    stored_key = if s.refuses (s.writes + 1) then s.stored_key else some s.active_tab_key;
    writes = s.writes + 2;
  }

  abbrev pub first_key : List Tab → String
  first_key [] = ""
  first_key (tab ∷ rest) = key_of tab

  abbrev pub are_tabs : List (Option Tab) → List Tab
  are_tabs [] = []
  are_tabs (none ∷ rest) = are_tabs rest
  are_tabs (some tab ∷ rest) = tab ∷ are_tabs rest

  -- `readSessionJson`, and the filter, where the storage can be read or not.
  unfoldable pub read_tabs : (is_readable : Bool) → Option json.Text → List Tab
  read_tabs is_readable none = []
  read_tabs is_readable (some text) =
      if not is_readable || json.is_empty text then [] else are_tabs (json.parse text)

  abbrev pub read_key : (is_readable : Bool) → Option String → String
  read_key is_readable raw_key = if is_readable then get_or_else raw_key "" else ""

  unfoldable pub restore_session_tabs : (is_readable : Bool) → Tabs → List Tab × String
  restore_session_tabs is_readable s =
      let tabs = read_tabs is_readable s.stored_tabs in
      let raw_key = read_key is_readable s.stored_key in
      (tabs, if has_key raw_key tabs then raw_key else first_key tabs)

  unfoldable pub upsert : Tab → List Tab → List Tab
  upsert tab [] = tab ∷ []
  upsert tab (old ∷ rest) =
      if str_eq (key_of old) (key_of tab) then merge old tab ∷ rest else old ∷ upsert tab rest

  unfoldable pub upsert_tab : Tab → Tabs → Tabs
  upsert_tab tab s = persist_tabs (record s { tabs = upsert tab s.tabs })

  unfoldable pub open_tab : Tab → Tabs → Tabs
  open_tab tab s =
      let shown = persist_tabs (record (upsert_tab tab s) { active_tab_key = key_of tab }) in
      record shown { changes = shown.changes + 1 }

  unfoldable pub activate_tab : String → Tabs → Tabs
  activate_tab tab_key s =
      if str_eq tab_key s.active_tab_key || not (has_key tab_key s.tabs)
      then s
      else record (persist_tabs (record s { active_tab_key = tab_key })) { changes = s.changes + 1 }

  -- `splice(closingIndex, 1)`, and the tab that takes the place: the one behind it, or the one before.
  unfoldable pub without : String → List Tab → List Tab
  without tab_key [] = []
  without tab_key (tab ∷ rest) =
      if str_eq (key_of tab) tab_key then rest else tab ∷ without tab_key rest

  unfoldable pub next_key : String → Option Tab → List Tab → String
  next_key tab_key before [] = ""
  next_key tab_key before (tab ∷ rest) =
      if str_eq (key_of tab) tab_key
      then first_key (rest ++ elim before [ none ↦ [] | some b ↦ b ∷ [] ])
      else next_key tab_key (some tab) rest

  unfoldable pub close_tab : String → Tabs → Tabs
  close_tab tab_key s =
      if not (has_key tab_key s.tabs)
      then s
      else let closed = record s { tabs = without tab_key s.tabs } in
        if not (str_eq tab_key s.active_tab_key)
        then persist_tabs closed
        else record (persist_tabs
            (record closed { active_tab_key = next_key tab_key none s.tabs })) {
              changes = s.changes + 1;
            }

  unfoldable pub find_tab : String → List Tab → Option Tab
  find_tab key [] = none
  find_tab key (tab ∷ rest) = if str_eq (key_of tab) key then some tab else find_tab key rest

  unfoldable pub edit_tab : String → Edit → List Tab → List Tab
  edit_tab key e [] = []
  edit_tab key e (tab ∷ rest) =
      if str_eq (key_of tab) key then edit e tab ∷ rest else tab ∷ edit_tab key e rest

  -- The first tab with the active key is the active one.
  unfoldable pub update_active_tab : Edit → Tabs → Tabs
  update_active_tab e s =
      if is_some (find_tab s.active_tab_key s.tabs)
      then persist_tabs (record s { tabs = edit_tab s.active_tab_key e s.tabs })
      else s

  unfoldable pub load_persisted_tabs : (is_readable : Bool) (title : String) → Tabs → Tabs
  load_persisted_tabs is_readable title s =
      let restored = restore_session_tabs is_readable s in
      record s { tabs = map (renew title) restored.0; active_tab_key = restored.1 }
