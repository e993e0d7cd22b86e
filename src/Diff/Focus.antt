-- ===== src/Diff/Focus.antt =====
-- frontend/src/run/patchFocus.ts: the file and the hunk at which a review opens; and the choices of
-- hunks in frontend/src/components/WorkspaceFilesDialog.tsx.
pub mod Hunks
use mini_agent_oscoder.Prelude.{
  ℕ, zero, suc, ◌+◌, ◌≡◌, refl, ◌∙◌, ◌⊎◌, inl, inr, Bool, true, false, not, ◌&&◌, ◌||◌, Option,
  none, some, List, [], ◌∷◌, ◌++◌, Text, lit, text_eq, starts_with, is_space, trim, trim_start,
  non_empty, split_lines, if◌then◌else◌, ◌==◌, ◌or_else◌, any, drop, length, first, find, arith,
  Bool-cases, All, Option-cases,
}
use mini_agent_oscoder.Diff.{
  is_terminator, whole_rest, match_git, strip_prefix, unless_null, map_option, split_chunks,
  DiffFile, build_diff_files,
}

-- `\s` stands next.
abbrev space_next : Text → Bool
space_next [] = false
space_next (c ∷ s) = is_space c

-- The units up to the next terminator: `.+` under the flag m, if there are any.
take_line : Text → Text
take_line [] = []
take_line (c ∷ s) = let rest = c ∷ take_line s in if is_terminator c then [] else rest

abbrev some_text : Text → Option Text
some_text [] = none
some_text (c ∷ s) = some (c ∷ s)

-- `\s+<side>(.+)$` under the flag m
spaced_side : Text → Text → Option Text
unfolding take_line
spaced_side side s =
    if space_next s && starts_with (trim_start s) side
    then some_text (take_line (drop 2 (trim_start s)))
    else none

-- `/^\+\+\+\s+b\/(.+)$/m` and `/^---\s+a\/(.+)$/m`, tried at the start of a line
marked_side : Text → Text → Text → Option Text
unfolding spaced_side
marked_side marker side s = if starts_with s marker then spaced_side side (drop 3 s) else none

-- `\S+` consumed
skip_word : Text → Text
skip_word [] = []
skip_word (c ∷ s) = let rest = skip_word s in if is_space c then c ∷ s else rest

-- `/^diff --git\s+a\/\S+\s+b\/(.+)$/m`, tried at the start of a line
git_side : Text → Option Text
unfolding skip_word spaced_side
git_side s =
    let rest = drop 10 s in
    let word = drop 2 (trim_start rest) in
    if starts_with s (lit "diff --git")
      && space_next rest
      && starts_with (trim_start rest) (lit "a/")
      && not (space_next word)
    then spaced_side (lit "b/") (skip_word word)
    else none

-- The first match at the start of a line, in a text that follows a unit.
match_after : (Text → Option Text) → ℕ → Text → Option Text
match_after m c [] = if is_terminator c then m [] else none
match_after m c (d ∷ s) =
    let rest = match_after m d s in (if is_terminator c then m (d ∷ s) else none) or_else rest

unfoldable pub first_match : (Text → Option Text) → Text → Option Text
unfolding match_after
first_match m s = match_after m 10 s

-- `plusPath && plusPath !== "/dev/null"`, trimmed
abbrev pub trimmed : Option Text → Option Text
trimmed m = map_option trim (unless_null m)

unfoldable pub first_patch_path : Text → Option Text
unfolding marked_side git_side
first_patch_path patch =
    trimmed (first_match (marked_side (lit "+++") (lit "b/")) patch)
    or_else (trimmed (first_match git_side patch)
        or_else trimmed (first_match (marked_side (lit "---") (lit "a/")) patch))

unfoldable pub focused_change_path : Text → List Text → Option Text
focused_change_path patch changed_files = first changed_files or_else first_patch_path patch

-- The last unit of a text, alone.
last_unit : Text → Text
last_unit [] = []
last_unit (c ∷ []) = c ∷ []
last_unit (c ∷ d ∷ s) = last_unit (d ∷ s)

-- `\s+(.+)$` without the flag m: where nothing but white space follows, the group is its last unit,
-- and one more must stand before it.
spaced_rest : Text → Option Text
unfolding last_unit
spaced_rest s =
    if not (space_next s)
    then none
    else if non_empty (trim_start s)
    then whole_rest (trim_start s)
    else if non_empty (drop 1 s)
    then whole_rest (last_unit s)
    else none

spaced_marker : Text → Text → Option Text
unfolding spaced_rest
spaced_marker marker line = if starts_with line marker then spaced_rest (drop 3 line) else none

-- What one line says of the path of its chunk.
chunk_line_path : Text → Option Text
unfolding spaced_marker
chunk_line_path line =
    map_option trim (match_git line)
    or_else (map_option (λ p. trim (strip_prefix (lit "b/") p))
          (unless_null (spaced_marker (lit "+++") line))
        or_else map_option (λ p. trim (strip_prefix (lit "a/") p))
            (unless_null (spaced_marker (lit "---") line)))

unfoldable pub patch_chunk_path : List Text → Option Text
unfolding chunk_line_path
patch_chunk_path [] = none
patch_chunk_path (line ∷ lines) = chunk_line_path line or_else patch_chunk_path lines

abbrev pub is_hunk : Text → Bool
is_hunk line = starts_with line (lit "@@")

-- `focusPath && path && path !== focusPath`
abbrev pub is_elsewhere : Option Text → Option Text → Bool
is_elsewhere (some focus) (some path) =
    non_empty focus && non_empty path && not (text_eq path focus)
is_elsewhere _ _ = false

-- The loop over the chunks.
hunk_in : Option Text → List Text → Option Text
hunk_in focus [] = none
hunk_in focus (chunk ∷ chunks) =
    let lines = split_lines chunk in
    (if is_elsewhere focus (patch_chunk_path lines) then none else find is_hunk lines)
    or_else hunk_in focus chunks

unfoldable pub focused_patch_hunk : Text → Option Text → Option Text
unfolding hunk_in
focused_patch_hunk patch focus =
    hunk_in focus (split_chunks (trim patch)) or_else find is_hunk (split_lines patch)

-- `lines.findIndex(p)`, where `none` is -1
unfoldable pub find_index {ℓ} : {A : Type ℓ} → (A → Bool) → List A → Option ℕ
find_index p [] = none
find_index p (x ∷ xs) = if p x then some 0 else map_option suc (find_index p xs)

exact_index : List Text → Option Text → Option ℕ
exact_index lines none = none
exact_index lines (some hunk) =
    if non_empty hunk then find_index (λ line. text_eq line hunk) lines else none

unfoldable pub diff_focus_index : List Text → Option Text → Option ℕ
unfolding exact_index
diff_focus_index lines focus_hunk = exact_index lines focus_hunk or_else find_index is_hunk lines

hunk_indexes_from : ℕ → List Text → List ℕ
hunk_indexes_from i [] = []
hunk_indexes_from i (line ∷ lines) =
    if is_hunk line then i ∷ hunk_indexes_from (suc i) lines else hunk_indexes_from (suc i) lines

unfoldable pub diff_hunk_indexes : List Text → List ℕ
unfolding hunk_indexes_from
diff_hunk_indexes lines = hunk_indexes_from 0 lines

-- `changedFiles[0] ?? buildDiffFiles(patch, changedFiles)[0]?.path`
unfoldable pub first_changed_path : Text → List Text → Option Text
first_changed_path patch changed_files =
    first changed_files
    or_else map_option (λ (f : DiffFile). f.path) (first (build_diff_files patch changed_files))
