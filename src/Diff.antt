-- ===== src/Diff.antt =====
-- Unified diffs as the review shows them: frontend/src/components/DiffReview.tsx. A regular
-- expression is a function that gives its group, if the text matches.
pub mod Focus
pub mod Files
pub mod Lines
mod Tests
use mini_agent_oscoder.Prelude.{
  ℕ, zero, suc, ◌+◌, Bool, true, false, not, ◌&&◌, ◌||◌, Option, none, some, List, [], ◌∷◌, ◌++◌,
  Text, lit, text_eq, starts_with, trim, non_empty, split_where, split_lines, newline,
  if◌then◌else◌, ◌==◌, ◌or_else◌, any, drop, length,
}

-- The units that `.` does not match, and at which `^` and `$` match under the flag m.
abbrev pub is_terminator : ℕ → Bool
is_terminator c = c == 10 || c == 13 || c == 0x2028 || c == 0x2029

-- `(.+)$` at the end of a text without the flag m
unfoldable pub whole_rest : Text → Option Text
whole_rest s = if non_empty s && not (any is_terminator s) then some s else none

-- The last group of `/^diff --git a\/(.+?) b\/(.+)$/`, behind the first `a/`: the lazy group ends at
-- the first ` b/` that leaves something behind it.
after_b : Text → Option Text
after_b [] = none
after_b (c ∷ s) =
    if starts_with s (lit " b/") && non_empty (drop 3 s) then some (drop 3 s) else after_b s

unfoldable pub match_git : Text → Option Text
unfolding after_b
match_git line =
    let rest = drop 13 line in
    if starts_with line (lit "diff --git a/") && not (any is_terminator rest)
    then after_b rest
    else none

-- `/^<marker>(.+)$/`, for a marker of `n` units
unfoldable pub match_marker : Text → ℕ → Text → Option Text
unfolding whole_rest
match_marker marker n line = if starts_with line marker then whole_rest (drop n line) else none

-- `path.replace(/^b\//, "")`
unfoldable pub strip_prefix : Text → Text → Text
strip_prefix prefix path = if starts_with path prefix then drop (length prefix) path else path

-- A matched path, unless it is the null device.
abbrev pub unless_null : Option Text → Option Text
unless_null none = none
unless_null (some path) = if text_eq path (lit "/dev/null") then none else some path

abbrev pub map_option {ℓ κ} : {A : Type ℓ} {B : Type κ} → (A → B) → Option A → Option B
map_option f none = none
map_option f (some a) = some (f a)

-- What one line says of the path.
unfoldable pub line_path : Text → Option Text
line_path line =
    match_git line
    or_else (match_marker (lit "rename to ") 10 line
        or_else (map_option (strip_prefix (lit "b/"))
              (unless_null (match_marker (lit "+++ ") 4 line))
            or_else map_option (strip_prefix (lit "a/"))
                (unless_null (match_marker (lit "--- ") 4 line))))

unfoldable pub diff_path : List Text → Option Text
diff_path [] = none
diff_path (line ∷ lines) = line_path line or_else diff_path lines

pub record DiffFile : Type 0 where
  pub path : Text
  pub additions : ℕ
  pub deletions : ℕ
  pub lines : List Text
  pub has_patch : Bool

abbrev pub is_addition : Text → Bool
is_addition line = starts_with line (lit "+") && not (starts_with line (lit "+++"))

abbrev pub is_deletion : Text → Bool
is_deletion line = starts_with line (lit "-") && not (starts_with line (lit "---"))

-- The counting loop: `additions` and `deletions` before it, and after it.
unfoldable pub count_lines : ℕ → ℕ → List Text → ℕ × ℕ
count_lines additions deletions [] = (additions, deletions)
count_lines additions deletions (line ∷ lines) =
    count_lines (if is_addition line then additions + 1 else additions)
      (if is_deletion line then deletions + 1 else deletions) lines

-- `content.split(/\n(?=diff --git )/g)`
unfoldable pub split_chunks : Text → List Text
split_chunks = split_where (λ c rest. c == newline && starts_with rest (lit "diff --git "))

-- One chunk; `only` says that it is the whole patch.
unfoldable pub parse_chunk : Bool → Text → List DiffFile
unfolding count_lines diff_path
parse_chunk only chunk =
    let lines = split_lines chunk in
    let named = diff_path lines or_else (if only then some (lit "patch.diff") else none) in
    let counts = count_lines 0 0 lines in
    elim named [
      | none ↦ []
      | some path ↦
          if non_empty path
          then record {
            path = path;
            additions = counts.0;
            deletions = counts.1;
            lines = lines;
            has_patch = true;
          }
            ∷ []
          else []
    ]

abbrev is_single : List Text → Bool
is_single (chunk ∷ []) = true
is_single _ = false

parse_chunks : Bool → List Text → List DiffFile
parse_chunks only [] = []
parse_chunks only (chunk ∷ chunks) = parse_chunk only chunk ++ parse_chunks only chunks

unfoldable pub parse_unified_diff : Text → List DiffFile
unfolding parse_chunks
parse_unified_diff patch =
    let content = trim patch in
    let chunks = split_chunks content in
    if non_empty content then parse_chunks (is_single chunks) chunks else []

-- `byPath.has(path)`
unfoldable pub has_path : Text → List DiffFile → Bool
has_path path files = any (λ f. text_eq f.path path) files

-- `byPath.set(file.path, file)`: the place of a key is that of its first setting.
unfoldable pub set_file : List DiffFile → DiffFile → List DiffFile
set_file [] file = file ∷ []
set_file (f ∷ files) file =
    if text_eq f.path file.path then file ∷ files else f ∷ set_file files file

unfoldable pub map_by_path : List DiffFile → List DiffFile → List DiffFile
unfolding set_file
map_by_path files [] = files
map_by_path files (file ∷ rest) = map_by_path (set_file files file) rest

abbrev pub bare_file : Text → DiffFile
bare_file path = record { path = path; additions = 0; deletions = 0; lines = []; has_patch = false }

-- The loop over the changed files that the caller names.
unfoldable pub add_changed : List DiffFile → List Text → List DiffFile
unfolding has_path set_file
add_changed files [] = files
add_changed files (path ∷ paths) =
    add_changed
      (if not (non_empty path) || has_path path files
        then files
        else set_file files (bare_file path))
      paths

unfoldable pub build_diff_files : Text → List Text → List DiffFile
unfolding map_by_path add_changed
build_diff_files patch changed_files =
    add_changed (map_by_path [] (parse_unified_diff patch)) changed_files

pub data LineClass : Type 0 where
  add delete meta context : LineClass

-- The same function stands in frontend/src/components/WorkspaceFilesDialog.tsx.
unfoldable pub classify_diff_line : Text → LineClass
classify_diff_line line =
    if starts_with line (lit "+++")
      || starts_with line (lit "---")
      || starts_with line (lit "@@")
      || starts_with line (lit "diff ")
      || starts_with line (lit "index ")
    then meta
    else if starts_with line (lit "+")
    then add
    else if starts_with line (lit "-")
    then delete
    else context
