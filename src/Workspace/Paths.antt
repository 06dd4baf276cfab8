-- ===== src/Workspace/Paths.antt =====
-- The paths of AYLink.Web/src/features/files/useFileManagerTabs.ts. A path is the list of its UTF-16 units; `trim`
-- of JavaScript is a parameter.
use aylink_extra.Prelude.{
  ℕ, ◌≡◌, refl, List, [], ◌∷◌, ◌++◌, Bool, false, ◌&&◌, if◌then◌else◌, ◌==◌, length,
}

abbrev pub slash : ℕ
slash = 47

abbrev pub backslash : ℕ
backslash = 92

-- '/sdcard/'
abbrev pub default_path : List ℕ
default_path = 47 ∷ 115 ∷ 100 ∷ 99 ∷ 97 ∷ 114 ∷ 100 ∷ 47 ∷ []

abbrev pub starts_with_slash : List ℕ → Bool
starts_with_slash [] = false
starts_with_slash (c ∷ rest) = c == slash

abbrev pub ends_with_slash : List ℕ → Bool
ends_with_slash [] = false
ends_with_slash (c ∷ []) = c == slash
ends_with_slash (c ∷ d ∷ rest) = ends_with_slash (d ∷ rest)

-- `replaceAll('\\', '/')`
abbrev pub replace_backslashes : List ℕ → List ℕ
replace_backslashes [] = []
replace_backslashes (c ∷ rest) = (if c == backslash then slash else c) ∷ replace_backslashes rest

-- `replace(/\/+/g, '/')`
unfoldable pub collapse : List ℕ → List ℕ
collapse [] = []
collapse (c ∷ rest) =
    let others = collapse rest in
    if (c == slash) && starts_with_slash rest then others else c ∷ others

-- `path || DEFAULT_PATH`
abbrev pub or_default : List ℕ → List ℕ
or_default [] = default_path
or_default (c ∷ rest) = c ∷ rest

abbrev pub root_path : List ℕ → List ℕ
root_path path = if starts_with_slash path then path else slash ∷ path

abbrev pub close_path : List ℕ → List ℕ
close_path path = if ends_with_slash path then path else path ++ slash ∷ []

module _ (trim : List ℕ → List ℕ) where
  unfoldable pub normalize_path : List ℕ → List ℕ
  normalize_path path =
      collapse (close_path (root_path (trim (replace_backslashes (or_default path)))))

  unfoldable pub join_remote_path : List ℕ → List ℕ → List ℕ
  join_remote_path base_path name = normalize_path (normalize_path base_path ++ name)

  -- `split('/').filter(Boolean)`: the non-empty parts, the last one first.
  abbrev pub parts_from : (part : List ℕ) (parts : List (List ℕ)) → List ℕ → List (List ℕ)
  parts_from part parts [] = if length part == 0 then parts else part ∷ parts
  parts_from part parts (c ∷ rest) =
      if c == slash
      then parts_from [] (if length part == 0 then parts else part ∷ parts) rest
      else parts_from (part ++ c ∷ []) parts rest

  -- `/${parts.join('/')}/` of parts of which the last one comes first.
  abbrev pub joined_parts : List (List ℕ) → List ℕ → List ℕ
  joined_parts [] tail = slash ∷ tail
  joined_parts (part ∷ parts) tail = joined_parts parts (part ++ slash ∷ tail)

  abbrev pub pop : List (List ℕ) → List (List ℕ)
  pop [] = []
  pop (part ∷ parts) = parts

  abbrev pub is_root : List ℕ → Bool
  is_root path = (length path == 1) && starts_with_slash path

  unfoldable pub parent_path : List ℕ → List ℕ
  parent_path path =
      let normalized = normalize_path path in
      if is_root normalized then slash ∷ [] else joined_parts (pop (parts_from [] [] normalized)) []

parent_test : parent_path (λ xs. xs) default_path ≡ slash ∷ []
unfolding parent_path normalize_path collapse
parent_test = refl
