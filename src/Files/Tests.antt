-- ===== src/Files/Tests.antt =====
-- A dialog with a listed file and a changed one, and the theorems at it.
use mini_agent_oscoder.Prelude.{
  ◌≡◌, refl, arith, inl, inr, ℕ, ◌⊎◌, ◌<◌, Bool, true, false, Bool-cases, none, some, List, [], ◌∷◌,
  Text, lit, length, leb, starts_with, ◌or_else◌,
}
use mini_agent_oscoder.I18n.{Tables}
use mini_agent_oscoder.WorkItems.Describe.{Translator}
use mini_agent_oscoder.Scripts.{Outcome, failed}
use mini_agent_oscoder.Diff.{bare_file}
use mini_agent_oscoder.Diff.Focus.{diff_hunk_indexes}
use mini_agent_oscoder.Keyed.{get, last_of, HasDistinctKeys}
use mini_agent_oscoder.Files.{
  WorkspaceFileItem, WorkspaceChangeSet, ItemKind, FileScope, ChangeKind, path_of, display_files,
}
use mini_agent_oscoder.Files.Display.{bare_change, display_files-refines}
use mini_agent_oscoder.Files.Dialog.{
  FilesDialog, FileList, PreviewMode, FileCall, FileReply, WorkspaceFileContent, Direction,
  position_of, move_hunk,
}
use mini_agent_oscoder.Files.Dialog.Moves.{IsMove, move_hunk-position}

abbrev tables : Tables
tables = record { en = []; zh = []; known = λ _. [] }

abbrev keys : Translator
keys key table = lit key

abbrev readme : WorkspaceFileItem
readme = record {
  path = lit "README.md";
  name = lit "README.md";
  kind = ItemKind.file;
  size = 1_048_100;
  language = lit "markdown";
  modified_at = 0;
}

abbrev change : WorkspaceChangeSet
change = record {
  title = lit "fix";
  patch = [];
  changed_files = lit "src/a.ts" ∷ [];
  focus_path = none;
  focus_hunk = none;
  kind = some ChangeKind.pending;
}

abbrev by_length : Text → Text → Bool
by_length a b = leb (length a) (length b)

by_length-total : (a b : Text) → (by_length a b ≡ true) ⊎ (by_length b a ≡ true)
by_length-total a b = elim (Bool-cases (by_length a b)) [
  | inl e ↦ inl e
  | inr e ↦ inr (ground (arith, e))
]

display_files-refines_example :
    HasDistinctKeys path_of
      (display_files by_length (readme ∷ []) (bare_file (lit "src/a.ts") ∷ []))
    × ((path : Text)
        → get path_of path (display_files by_length (readme ∷ []) (bare_file (lit "src/a.ts") ∷ []))
          ≡ (last_of path_of path (readme ∷ [])
              or_else bare_change path (bare_file (lit "src/a.ts") ∷ [])))
display_files-refines_example =
    display_files-refines by_length (bare_file (lit "src/a.ts") ∷ []) (readme ∷ [])

abbrev dialog : FilesDialog
dialog = record {
  query = [];
  items = [];
  truncated = false;
  selected_path = lit "gone.ts";
  content = none;
  preview_mode = PreviewMode.diff;
  file_scope = FileScope.changes;
  loading_files = true;
  loading_content = true;
  list_error = [];
  content_error = [];
  active_hunk_index = some 3;
  content_runs = 2;
}

abbrev listing : FileList
listing = record { items = readme ∷ []; truncated = false }

-- Two hunks, of which the second is shown.
abbrev hunk_lines : List Text
hunk_lines = lit "diff" ∷ lit "@@ -1 +1 @@" ∷ lit "+a" ∷ lit "@@ -9 +9 @@" ∷ []

move_hunk-position_example :
    (m : ℕ) × (position_of
        (move_hunk Direction.next (diff_hunk_indexes hunk_lines) dialog).active_hunk_index
        (diff_hunk_indexes hunk_lines)
      ≡ some m)
    × (m < length (diff_hunk_indexes hunk_lines))
    × IsMove Direction.next (length (diff_hunk_indexes hunk_lines)) 1 m
unfolding diff_hunk_indexes lit starts_with
move_hunk-position_example = move_hunk-position Direction.next hunk_lines dialog 1 refl refl

abbrev offline : (c : FileCall) → Outcome (FileReply c)
offline c = failed none

abbrev page : WorkspaceFileContent
page = record { path = lit "a"; available = true; content = lit "text"; reason = [] }
