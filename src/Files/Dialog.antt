-- ===== src/Files/Dialog.antt =====
-- frontend/src/components/WorkspaceFilesDialog.tsx: the state of the dialog, its effects and actions.
-- An effect or an action reads `set`, the change set that the dialog shows, and the project.
pub mod Selection
pub mod Contents
pub mod Moves
use mini_agent_oscoder.Prelude.{
  ℕ, suc, ◌+◌, ◌-◌, Bool, true, false, not, ◌&&◌, ◌||◌, Option, none, some, List, [], ◌∷◌, Text,
  lit, text_eq, ltb, ◌==◌, first, length, get_elem?, is_some, or_default, ◌or_else◌, non_empty,
  if◌then◌else◌,
}
use mini_agent_oscoder.I18n.{Locale, Tables, localize_error_message}
use mini_agent_oscoder.WorkItems.Describe.{Translator}
use mini_agent_oscoder.Scripts
use mini_agent_oscoder.Scripts.{Outcome, failed, replied, strict, done, update, await}
use mini_agent_oscoder.Diff.{DiffFile, has_path, map_option}
use mini_agent_oscoder.Diff.Files.{file_of}
use mini_agent_oscoder.Diff.Focus.{
  find_index, diff_focus_index, diff_hunk_indexes, first_changed_path,
}
use mini_agent_oscoder.Keyed.{has}
use mini_agent_oscoder.Files.{
  WorkspaceFileItem, WorkspaceChangeSet, FileScope, path_of, files_of, changed_of,
}

pub record WorkspaceFileContent : Type 0 where
  pub path : Text
  pub available : Bool
  pub content : Text
  pub reason : Text

pub data PreviewMode : Type 0 where
  source diff : PreviewMode

-- `content_runs` counts the runs of the effect that loads a content. The cleanup of a run comes before
-- the next one, so a run is cancelled exactly when it is not the last.
pub record FilesDialog : Type 0 where
  pub query : Text
  pub items : List WorkspaceFileItem
  pub truncated : Bool
  pub selected_path : Text
  pub content : Option WorkspaceFileContent
  pub preview_mode : PreviewMode
  pub file_scope : FileScope
  pub loading_files : Bool
  pub loading_content : Bool
  pub list_error : Text
  pub content_error : Text
  pub active_hunk_index : Option ℕ
  pub content_runs : ℕ

pub record FileList : Type 0 where
  pub items : List WorkspaceFileItem
  pub truncated : Bool

pub data FileCall : Type 0 where
  get_project_files : (project query : Text) → FileCall
  get_project_file_content : (project path : Text) → FileCall

abbrev pub FileReply : FileCall → Type 0
FileReply (get_project_files _ _) = FileList
FileReply (get_project_file_content _ _) = WorkspaceFileContent

abbrev pub Script : Type 0
Script = Scripts.Script FilesDialog FileCall FileReply

-- `firstChangedPath(changeSet?.patch ?? "", changeSet?.changedFiles ?? [])`
unfoldable pub first_change : Option WorkspaceChangeSet → Option Text
first_change none = first_changed_path [] []
first_change (some set) = first_changed_path set.patch set.changed_files

abbrev pub focus_of : Option WorkspaceChangeSet → Option Text
focus_of none = none
focus_of (some set) = set.focus_path

-- `setSelectedPath` in `loadFiles`
unfoldable pub choose_path : Option WorkspaceChangeSet → List WorkspaceFileItem → Text → Text
unfolding first_change
choose_path set next_files current =
    if has path_of current next_files || has_path current (changed_of set)
    then current
    else or_default
        (focus_of set or_else (first_change set or_else map_option path_of (first next_files))) []

unfoldable pub show_list : Option WorkspaceChangeSet → FileList → FilesDialog → FilesDialog
unfolding choose_path
show_list set answer w = record w {
  items = answer.items;
  truncated = answer.truncated;
  selected_path = choose_path set (files_of answer.items) w.selected_path;
  loading_files = false;
}

-- The effect that runs when the dialog opens, or shows another change.
unfoldable pub reset_dialog : Option WorkspaceChangeSet → FilesDialog → FilesDialog
unfolding first_change
reset_dialog set w = record w {
  query = [];
  selected_path = or_default (focus_of set or_else first_change set) [];
  preview_mode = if is_some set then diff else source;
  file_scope = if is_some set then FileScope.changes else FileScope.all;
  content = none;
  list_error = [];
  content_error = [];
}

-- `showChangedFiles`
unfoldable pub show_changed_files : Option WorkspaceChangeSet → FilesDialog → FilesDialog
unfolding first_change
show_changed_files set w = elim (first_change set) [
  | none ↦ record w { file_scope = FileScope.changes }
  | some path ↦
      if non_empty path && not (has_path w.selected_path (changed_of set))
      then record w { file_scope = FileScope.changes; selected_path = path; preview_mode = diff }
      else record w { file_scope = FileScope.changes }
]

-- `hunkIndexes` and `focusedHunkIndex` of the selected file, if it is changed.
abbrev pub selected_lines : Option WorkspaceChangeSet → FilesDialog → Option (List Text)
selected_lines set w =
    map_option (λ (f : DiffFile). f.lines) (file_of w.selected_path (changed_of set))

abbrev pub hunks_of : Option (List Text) → List ℕ
hunks_of lines = diff_hunk_indexes (or_default lines [])

abbrev focus_hunk_of : Option WorkspaceChangeSet → Option Text
focus_hunk_of none = none
focus_hunk_of (some set) = set.focus_hunk

abbrev is_diff : PreviewMode → Bool
is_diff mode = elim mode [ diff ↦ true | source ↦ false ]

-- The effect that chooses the hunk of a file.
unfoldable pub focus_hunk : Option WorkspaceChangeSet → FilesDialog → FilesDialog
focus_hunk set w = elim (selected_lines set w) [
  | none ↦ w
  | some lines ↦
      if is_diff w.preview_mode
      then record w {
        active_hunk_index =
            diff_focus_index lines (focus_hunk_of set) or_else first (diff_hunk_indexes lines);
      }
      else w
]

pub data Direction : Type 0 where
  previous next : Direction

-- `activeHunkPosition`
abbrev pub position_of : Option ℕ → List ℕ → Option ℕ
position_of none indexes = none
position_of (some active) indexes = find_index (λ i. i == active) indexes

-- `Math.min(hunkIndexes.length - 1, Math.max(0, current + direction))`
abbrev pub step_from : Direction → ℕ → ℕ → ℕ
step_from previous current total = current - 1
step_from next current total = if ltb (current + 1) total then current + 1 else total - 1

-- `moveHunk`
unfoldable pub move_hunk : Direction → List ℕ → FilesDialog → FilesDialog
move_hunk direction [] w = w
move_hunk direction (i ∷ indexes) w =
    let current = or_default (position_of w.active_hunk_index (i ∷ indexes)) 0 in
    record w {
      active_hunk_index =
          get_elem? (i ∷ indexes) (step_from direction current (length (i ∷ indexes)));
    }

-- `if (!cancelled)`
abbrev pub if_last : ℕ → (FilesDialog → FilesDialog) → FilesDialog → FilesDialog
if_last run f w = if w.content_runs == run then f w else w

module _ (tables : Tables) (locale : Locale) (t : Translator)
    (set : Option WorkspaceChangeSet) where
  unfoldable pub list_answered : Outcome (FileList × Unit) → Script
  unfolding show_list
  list_answered (failed e) =
      update
        (λ w. record w {
          items = [];
          selected_path = [];
          content = none;
          truncated = false;
          list_error = localize_error_message tables locale e (t "workspaceFiles.loadFailed" []);
          loading_files = false;
        })
        done
  list_answered (replied (answer, _)) = update (show_list set answer) done

  -- `loadFiles`
  unfoldable pub load_files : Option Text → Text → Script
  unfolding list_answered
  load_files none query = done
  load_files (some project) query =
      update (λ w. record w { loading_files = true; list_error = [] })
        (await (strict (get_project_files project query) ∷ []) list_answered)

  unfoldable pub open_dialog : Option Text → Script
  unfolding load_files reset_dialog
  open_dialog none = done
  open_dialog (some project) = update (reset_dialog set) (load_files (some project) [])

  unfoldable pub content_answered : ℕ → Outcome (WorkspaceFileContent × Unit) → Script
  content_answered run (failed e) =
      update
        (if_last run (λ w. record w {
          content = none;
          content_error =
              localize_error_message tables locale e (t "workspaceFiles.loadContentFailed" []);
          loading_content = false;
        }))
        done
  content_answered run (replied (content, _)) =
      update (if_last run (λ w. record w { content = some content; loading_content = false })) done

  -- The effect that loads the content of the selected file, as it runs in the state `w`.
  unfoldable pub load_content : Option Text → FilesDialog → Script
  unfolding content_answered
  load_content none w = update (λ v. record v { content_runs = suc w.content_runs }) done
  load_content (some project) w =
      update (λ v. record v { content_runs = suc w.content_runs })
        (if not (non_empty w.selected_path)
          then done
          else if not (has path_of w.selected_path (files_of w.items))
          then update (λ v. record v { content = none; loading_content = false }) done
          else update (λ v. record v { loading_content = true; content_error = [] })
              (await (strict (get_project_file_content project w.selected_path) ∷ [])
                (content_answered (suc w.content_runs))))
