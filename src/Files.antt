-- ===== src/Files.antt =====
-- frontend/src/components/WorkspaceFilesDialog.tsx: the files of a project beside the changes under
-- review. What the dialog shows is computed from the listed items and from the change set.
pub mod Display
pub mod Dialog
pub mod Sizes
mod Tests
use mini_agent_oscoder.Prelude.{
  ◌≡◌, ℕ, Bool, true, false, not, ◌&&◌, ◌||◌, Option, none, some, List, [], ◌∷◌, map, Text, text_eq,
  lit, split_where, ◌==◌, last, or_default, or_text, any, keep, find, non_empty, if◌then◌else◌,
  ◌or_else◌, length, ltb,
}
use mini_agent_oscoder.Keyed.{has, put, put_all}
use mini_agent_oscoder.Sorting.{sort}
use mini_agent_oscoder.Diff.{DiffFile, has_path, build_diff_files}

pub data ItemKind : Type 0 where
  file directory : ItemKind

pub record WorkspaceFileItem : Type 0 where
  pub path : Text
  pub name : Text
  pub kind : ItemKind
  pub size : ℕ
  pub language : Text
  pub modified_at : ℕ

pub data ChangeKind : Type 0 where
  pending applied : ChangeKind

pub record WorkspaceChangeSet : Type 0 where
  pub title : Text
  pub patch : Text
  pub changed_files : List Text
  pub focus_path : Option Text
  pub focus_hunk : Option Text
  pub kind : Option ChangeKind

abbrev pub is_file : WorkspaceFileItem → Bool
is_file item = elim item.kind [ file ↦ true | directory ↦ false ]

-- `files`
abbrev pub files_of : List WorkspaceFileItem → List WorkspaceFileItem
files_of items = keep is_file items

-- `changed`
unfoldable pub changed_of : Option WorkspaceChangeSet → List DiffFile
changed_of none = build_diff_files [] []
changed_of (some set) = build_diff_files set.patch set.changed_files

-- `hasChanges`
unfoldable pub has_changes : Option WorkspaceChangeSet → Bool
unfolding changed_of
has_changes none = false
has_changes (some set) = not (length (changed_of (some set)) == 0)

-- `file.path.split("/").pop() || file.path`
unfoldable pub name_of : Text → Text
name_of path = or_text (or_default (last (split_where (λ c _. c == b'/') path)) []) path

-- The item of a changed file that is not listed.
unfoldable pub bare_item : Text → WorkspaceFileItem
unfolding name_of
bare_item path = record {
  path = path;
  name = name_of path;
  kind = file;
  size = 0;
  language = [];
  modified_at = 0;
}

abbrev pub path_of : WorkspaceFileItem → Text
path_of item = item.path

-- The loop over the changed files.
unfoldable pub add_changes : List WorkspaceFileItem → List DiffFile → List WorkspaceFileItem
unfolding bare_item
add_changes items [] = items
add_changes items (f ∷ files) =
    add_changes (if has path_of f.path items then items else put path_of items (bare_item f.path))
      files

pub data FileScope : Type 0 where
  changes all : FileScope

module _ (locale_le : Text → Text → Bool) where
  -- `compare(left, right) <= 0` for the order of the list, where `locale_le a b` is
  -- `a.localeCompare(b) <= 0`: changed files come first.
  unfoldable pub in_order : List DiffFile → WorkspaceFileItem → WorkspaceFileItem → Bool
  in_order changed left right =
      if has_path left.path changed
      then not (has_path right.path changed) || locale_le left.path right.path
      else not (has_path right.path changed) && locale_le left.path right.path

  -- `displayFiles`
  unfoldable pub display_files : List WorkspaceFileItem → List DiffFile → List WorkspaceFileItem
  unfolding add_changes in_order
  display_files files changed =
      sort (in_order changed) (add_changes (put_all path_of [] files) changed)

  -- `visibleFiles`
  unfoldable pub visible_files :
      Option WorkspaceChangeSet → FileScope → List WorkspaceFileItem → List WorkspaceFileItem
  unfolding display_files changed_of has_changes
  visible_files set scope files =
      let changed = changed_of set in
      let display = display_files files changed in
      if not (has_changes set)
      then display
      else elim scope [ all ↦ display | changes ↦ keep (λ i. has_path i.path changed) display ]
