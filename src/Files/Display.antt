-- ===== src/Files/Display.antt =====
-- The list of frontend/src/components/WorkspaceFilesDialog.tsx as a map from paths, and its order.
use mini_agent_oscoder.Prelude.{
  ◌≡◌, refl, ◌∙◌, ap, arith, inl, inr, ◌⊎◌, Bool, true, false, not, ◌||◌, Bool-cases, Option, none,
  some, List, [], ◌∷◌, Text, text_eq, eq_of_text_eq, any, ◌or_else◌, if◌then◌else◌,
}
use mini_agent_oscoder.Diff.{DiffFile, has_path}
use mini_agent_oscoder.Keyed.{
  has, get, put, put_all, last_of, HasDistinctKeys, has-get, get-put, put-HasDistinctKeys,
  put_all-HasDistinctKeys, get-put_all-nil,
}
use mini_agent_oscoder.Sorting.{IsOrdered, sort-IsOrdered, sort-lookup}
use mini_agent_oscoder.Files.{
  WorkspaceFileItem, path_of, bare_item, add_changes, in_order, display_files,
}

bare_item-path : (path : Text) → (bare_item path).path ≡ path
unfolding bare_item
bare_item-path path = refl

add_changes-HasDistinctKeys :
    (items : List WorkspaceFileItem) (changed : List DiffFile)
    → HasDistinctKeys path_of items
    → HasDistinctKeys path_of (add_changes items changed)
unfolding add_changes
add_changes-HasDistinctKeys items [] h = h
add_changes-HasDistinctKeys items (f ∷ files) h = elim (Bool-cases (has path_of f.path items)) [
  | inl e ↦ rw e (add_changes-HasDistinctKeys items files h)
  | inr e ↦ rw e (
      add_changes-HasDistinctKeys (put path_of items (bare_item f.path)) files
        (put-HasDistinctKeys path_of items (bare_item f.path) h))
]

-- The bare item of a path that is changed.
abbrev pub bare_change : Text → List DiffFile → Option WorkspaceFileItem
bare_change path changed = if has_path path changed then some (bare_item path) else none

get-bare :
    (path : Text) (f : DiffFile) (files : List DiffFile) (items : List WorkspaceFileItem)
    → has path_of f.path items ≡ false
    → (get path_of path (put path_of items (bare_item f.path)) or_else bare_change path files)
      ≡ (get path_of path items or_else bare_change path (f ∷ files))
unfolding has_path
get-bare path f files items h = elim (Bool-cases (text_eq f.path path)) [
  | inl e ↦
      let q = eq_of_text_eq f.path path e in
      simp (get-put path_of path items (bare_item f.path), bare_item-path f.path, e)
        (ground
          (arith, h, has-get path_of f.path items, ap bare_item q, ap (λ p. get path_of p items) q))
  | inr e ↦ simp (get-put path_of path items (bare_item f.path), bare_item-path f.path, e) refl
]

get-listed :
    (path : Text) (f : DiffFile) (files : List DiffFile) (items : List WorkspaceFileItem)
    → has path_of f.path items ≡ true
    → (get path_of path items or_else bare_change path files)
      ≡ (get path_of path items or_else bare_change path (f ∷ files))
unfolding has_path
get-listed path f files items h =
    ground (arith, h, has-get path_of f.path items, eq_of_text_eq f.path path)

get-add_changes :
    (path : Text) (items : List WorkspaceFileItem) (changed : List DiffFile)
    → get path_of path (add_changes items changed)
      ≡ (get path_of path items or_else bare_change path changed)
unfolding add_changes
get-add_changes path items [] = unfold has_path in ground arith
get-add_changes path items (f ∷ files) = elim (Bool-cases (has path_of f.path items)) [
  | inl e ↦ rw e (get-add_changes path items files ∙ get-listed path f files items e)
  | inr e ↦ rw e (
      get-add_changes path (put path_of items (bare_item f.path)) files
      ∙ get-bare path f files items e)
]

module _ (locale_le : Text → Text → Bool) (changed : List DiffFile) where
  in_order-total :
      ((a b : Text) → (locale_le a b ≡ true) ⊎ (locale_le b a ≡ true))
      → (i j : WorkspaceFileItem) → in_order locale_le changed i j ≡ false
      → in_order locale_le changed j i ≡ true
  unfolding in_order
  in_order-total total i j h = ground (arith, total i.path j.path)

  -- The list reads as a map from paths: at each path it has the last listed file of that path and, where
  -- none is listed, a bare item if the path is changed, and nothing else; it has no path twice.
  pub display_files-refines :
      (files : List WorkspaceFileItem)
      → HasDistinctKeys path_of (display_files locale_le files changed)
        × ((path : Text)
            → get path_of path (display_files locale_le files changed)
              ≡ (last_of path_of path files or_else bare_change path changed))
  unfolding display_files
  display_files-refines files =
      let distinct =
        add_changes-HasDistinctKeys (put_all path_of [] files) changed
          (put_all-HasDistinctKeys path_of [] files tt) in
      (
        (sort-lookup (in_order locale_le changed) path_of []
            (add_changes (put_all path_of [] files) changed) distinct).1,
        (λ path.
            (sort-lookup (in_order locale_le changed) path_of path
              (add_changes (put_all path_of [] files) changed) distinct).0
            ∙ get-add_changes path (put_all path_of [] files) changed
            ∙ rw (get-put_all-nil path_of path files) refl),
      )

  -- No changed file stands after one that is not.
  abbrev pub HasChangesFirst : List WorkspaceFileItem → Type 0
  HasChangesFirst [] = Unit
  HasChangesFirst (i ∷ items) =
      ((has_path i.path changed || not (any (λ j. has_path j.path changed) items)) ≡ true)
      × HasChangesFirst items

  unchanged_rest :
      (i : WorkspaceFileItem) (items : List WorkspaceFileItem)
      → has_path i.path changed ≡ false
      → IsOrdered (in_order locale_le changed) (i ∷ items)
      → any (λ j. has_path j.path changed) items ≡ false
  unfolding in_order
  unchanged_rest i [] n h = refl
  unchanged_rest i (j ∷ items) n (o, h) =
      let m : has_path j.path changed ≡ false = ground (arith, n, o) in
      ground (arith, m, unchanged_rest j items m h)

  HasChangesFirst-of_IsOrdered :
      (items : List WorkspaceFileItem)
      → IsOrdered (in_order locale_le changed) items
      → HasChangesFirst items
  HasChangesFirst-of_IsOrdered [] h = tt
  HasChangesFirst-of_IsOrdered (i ∷ items) (m, h) = (
    elim (Bool-cases (has_path i.path changed)) [
      | inl e ↦ ground (arith, e)
      | inr e ↦ ground (arith, e, unchanged_rest i items e (m, h))
    ],
    HasChangesFirst-of_IsOrdered items h,
  )

  -- Where the comparison of the locale is total, each item of the list is in order with the next, and
  -- the changed files come before the others.
  pub display_files-IsOrdered :
      (files : List WorkspaceFileItem)
      → ((a b : Text) → (locale_le a b ≡ true) ⊎ (locale_le b a ≡ true))
      → IsOrdered (in_order locale_le changed) (display_files locale_le files changed)
        × HasChangesFirst (display_files locale_le files changed)
  unfolding display_files
  display_files-IsOrdered files total =
      let ordered =
        sort-IsOrdered (in_order locale_le changed) (in_order-total total)
          (add_changes (put_all path_of [] files) changed) in
      (ordered, HasChangesFirst-of_IsOrdered _ ordered)
