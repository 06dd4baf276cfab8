-- ===== src/Workspace/Normal.antt =====
-- Normalized paths of AYLink.Web/src/features/files/useFileManagerTabs.ts.
use aylink_extra.Prelude.{
  ℕ, ◌≡◌, refl, ap, ◌∙◌, arith, List, [], ◌∷◌, ◌++◌, Bool, true, not, ◌&&◌, ◌==◌, any, if_keeps,
  if_splits,
}
use aylink_extra.Workspace.Paths.{
  or_default, root_path, close_path, slash, backslash, starts_with_slash, ends_with_slash,
  replace_backslashes, collapse, normalize_path,
}

unfoldable pub has_no_double_slash : List ℕ → Bool
has_no_double_slash [] = true
has_no_double_slash (c ∷ rest) =
    not ((c == slash) && starts_with_slash rest) && has_no_double_slash rest

abbrev pub has_no_backslash : List ℕ → Bool
has_no_backslash path = not (any (λ c. c == backslash) path)

-- Begins and ends with a slash, and has no two slashes in a row and no backslash.
pub record IsNormal (path : List ℕ) : Type 0 where
  pub starts : starts_with_slash path ≡ true
  pub ends : ends_with_slash path ≡ true
  pub single : has_no_double_slash path ≡ true
  pub plain : has_no_backslash path ≡ true

-- What `trim` does: it takes nothing but blanks off, and those at the ends only.
pub record IsTrim (trim : List ℕ → List ℕ) : Type 0 where
  pub part : (xs : List ℕ) → has_no_backslash xs ≡ true → has_no_backslash (trim xs) ≡ true
  pub fixed : (xs : List ℕ) → starts_with_slash xs ≡ true → ends_with_slash xs ≡ true → trim xs ≡ xs

starts-collapse : (xs : List ℕ) → starts_with_slash (collapse xs) ≡ starts_with_slash xs
unfolding collapse
starts-collapse [] = refl
starts-collapse (c ∷ rest) = ground (arith, starts-collapse rest)

single-collapse : (xs : List ℕ) → has_no_double_slash (collapse xs) ≡ true
unfolding collapse has_no_double_slash
single-collapse [] = refl
single-collapse (c ∷ rest) = ground (arith, single-collapse rest, starts-collapse rest)

plain-collapse : (xs : List ℕ) → has_no_backslash xs ≡ true → has_no_backslash (collapse xs) ≡ true
unfolding collapse
plain-collapse [] h = refl
plain-collapse (c ∷ rest) h = ground (arith, plain-collapse rest, h)

-- A path whose slashes are single stays.
collapse_lem : (xs : List ℕ) → has_no_double_slash xs ≡ true → collapse xs ≡ xs
unfolding collapse has_no_double_slash
collapse_lem [] h = refl
collapse_lem (c ∷ rest) h = ground (arith, collapse_lem rest, h)

ends-cons : (c : ℕ) (xs : List ℕ) → ends_with_slash xs ≡ true → ends_with_slash (c ∷ xs) ≡ true
ends-cons c [] h = absurd (ground arith)
ends-cons c (d ∷ rest) h = h

ends-collapse : (xs : List ℕ) → ends_with_slash xs ≡ true → ends_with_slash (collapse xs) ≡ true
unfolding collapse
ends-collapse [] h = h
ends-collapse (c ∷ []) h = ground (arith, h)
ends-collapse (c ∷ d ∷ rest) h =
    let k = ends-collapse (d ∷ rest) h in
    if_keeps (λ ys. ends_with_slash ys ≡ true) ((c == slash) && (d == slash)) _ _ k
      (ends-cons c (collapse (d ∷ rest)) k)

ends-append : (xs : List ℕ) → ends_with_slash (xs ++ slash ∷ []) ≡ true
ends-append [] = refl
ends-append (c ∷ []) = refl
ends-append (c ∷ d ∷ rest) = ends-append (d ∷ rest)

plain-replace : (xs : List ℕ) → has_no_backslash (replace_backslashes xs) ≡ true
plain-replace [] = refl
plain-replace (c ∷ rest) = ground (arith, plain-replace rest)

plain_lem : (xs : List ℕ) → has_no_backslash xs ≡ true → replace_backslashes xs ≡ xs
plain_lem [] h = refl
plain_lem (c ∷ rest) h = ground (arith, plain_lem rest, h)

plain-append :
    (xs : List ℕ) → has_no_backslash xs ≡ true → has_no_backslash (xs ++ slash ∷ []) ≡ true
plain-append [] h = refl
plain-append (c ∷ rest) h = ground (arith, plain-append rest, h)

starts-append :
    (xs : List ℕ) → starts_with_slash xs ≡ true → starts_with_slash (xs ++ slash ∷ []) ≡ true
starts-append [] h = absurd (ground arith)
starts-append (c ∷ rest) h = h

collapsed-IsNormal :
    (xs : List ℕ)
    → starts_with_slash xs ≡ true
    → ends_with_slash xs ≡ true
    → has_no_backslash xs ≡ true
    → IsNormal (collapse xs)
collapsed-IsNormal xs s e p = record {
  starts = starts-collapse xs ∙ s;
  ends = ends-collapse xs e;
  single = single-collapse xs;
  plain = plain-collapse xs p;
}

module _ (trim : List ℕ → List ℕ) (laws : IsTrim trim) where
  rooted-starts : (xs : List ℕ) → starts_with_slash (root_path xs) ≡ true
  rooted-starts xs =
      if_splits (λ ys. starts_with_slash ys ≡ true) (starts_with_slash xs) _ _ (λ e. e) (λ e. refl)

  rooted-plain : (xs : List ℕ) → has_no_backslash xs ≡ true → has_no_backslash (root_path xs) ≡ true
  rooted-plain xs h = if_keeps (λ ys. has_no_backslash ys ≡ true) (starts_with_slash xs) _ _ h h

  closed-IsNormal :
      (xs : List ℕ)
      → starts_with_slash xs ≡ true
      → has_no_backslash xs ≡ true
      → IsNormal (collapse (close_path xs))
  closed-IsNormal xs s p =
      if_splits (λ ys. IsNormal (collapse ys)) (ends_with_slash xs) _ _
        (λ e. collapsed-IsNormal xs s e p)
        (λ e.
          collapsed-IsNormal (xs ++ slash ∷ []) (starts-append xs s) (ends-append xs)
            (plain-append xs p))

  -- The normal form of every path begins and ends with a slash and has neither two slashes in a row nor a
  -- backslash, for a `trim` that only takes blanks off the ends.
  pub normalize_path-IsNormal : (path : List ℕ) → IsNormal (normalize_path trim path)
  unfolding normalize_path
  normalize_path-IsNormal path =
      let given = or_default path in
      let trimmed = trim (replace_backslashes given) in
      closed-IsNormal (root_path trimmed) (rooted-starts trimmed)
        (rooted-plain trimmed (laws.part (replace_backslashes given) (plain-replace given)))

  normal_lem : (path : List ℕ) → IsNormal path → normalize_path trim path ≡ path
  unfolding normalize_path
  normal_lem [] h = absurd (ground (arith, h.starts))
  normal_lem (c ∷ rest) h =
      let path = c ∷ rest in
      let same = ap trim (plain_lem path h.plain) ∙ laws.fixed path h.starts h.ends in
      let is_rooted : root_path path ≡ path = ground (arith, h.starts) in
      let is_closed : close_path path ≡ path = ground (arith, h.ends) in
      ap (λ t. collapse (close_path (root_path t))) same
      ∙ (ap (λ t. collapse (close_path t)) is_rooted
          ∙ (ap collapse is_closed ∙ collapse_lem path h.single))

  -- Normalizing a normal form changes nothing, for a `trim` that only takes blanks off the ends.
  pub normalize_path-normalize_path :
      (path : List ℕ) → normalize_path trim (normalize_path trim path) ≡ normalize_path trim path
  normalize_path-normalize_path path =
      normal_lem (normalize_path trim path) (normalize_path-IsNormal path)
