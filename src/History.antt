-- ===== src/History.antt =====
-- frontend/src/components/RunCenter.tsx: the state of the history of the runs, and its updates.
pub mod Actions
pub mod Selection
pub mod Waiting
pub mod Outcomes
pub mod Patches
pub mod Durations
mod Tests
use Prim.Native.String.{String}
use mini_agent_oscoder.Prelude.{
  ℕ, Bool, true, false, not, Option, none, some, List, [], ◌∷◌, ◌++◌, Text, text_eq, trim, lit,
  non_empty, any, keep, length, ltb, ◌==◌, ◌or_else◌, or_default, if◌then◌else◌, first, one_of,
}
use mini_agent_oscoder.Json.{Value}
use mini_agent_oscoder.I18n.{Locale, Tables, localize_error_message}
use mini_agent_oscoder.WorkItems.Describe.{Translator}
use mini_agent_oscoder.Scripts
use mini_agent_oscoder.Scripts.{Outcome, failed, replied, strict, done, update, await}

pub record HistoryProject : Type 0 where
  pub project_id : Text
  pub path : Text

pub record HistoryRun : Type 0 where
  pub run_id : Text
  pub project_id : Text
  pub project_path : Text
  pub status : Text
  pub archived : Bool
  pub changed_files : List Text

pub record HistoryPatch : Type 0 where
  pub available : Bool
  pub content : Text

pub record HistoryRunDetail : Type 0 where
  pub run : HistoryRun
  pub patch : HistoryPatch
  pub resume_available : Bool

pub record HistoryRunFilters : Type 0 where
  pub project_id : Option Text
  pub status : Option Text
  pub query : Option Text
  pub include_archived : Bool

pub record HistoryPage : Type 0 where
  pub runs : List HistoryRun
  pub total : ℕ

pub record RunCenter : Type 0 where
  pub projects : List HistoryProject
  pub runs : List HistoryRun
  pub total : ℕ
  pub project_id : Text
  pub status : Text
  pub query : Text
  pub include_archived : Bool
  pub detail : Option HistoryRunDetail
  pub selected : List Text
  pub comparison : Option Value
  pub evaluation : Option Value
  pub evaluation_open : Bool
  pub loading : Bool
  pub detail_loading : Bool
  pub error : Option Text

-- What the history asks the daemon for; `resume` is the callback that the workbench passes.
pub data HistoryCall : Type 0 where
  get_history_projects : HistoryCall
  get_history_runs : HistoryRunFilters → HistoryCall
  get_history_run delete_history_run resume : (run : Text) → HistoryCall
  compare_history_runs : (left right : Text) → HistoryCall
  archive_history_run : (run : Text) → (archived : Bool) → HistoryCall
  get_evaluation_summary : Option Text → HistoryCall

abbrev pub HistoryReply : HistoryCall → Type 0
HistoryReply get_history_projects = List HistoryProject
HistoryReply (get_history_runs _) = HistoryPage
HistoryReply (get_history_run _) = HistoryRunDetail
HistoryReply _ = Value

abbrev pub Script : Type 0
Script = Scripts.Script RunCenter HistoryCall HistoryReply

-- `s || undefined`
abbrev pub unless_empty : Text → Option Text
unless_empty [] = none
unless_empty (c ∷ s) = some (c ∷ s)

unfoldable pub filters_of : RunCenter → Option Text → HistoryRunFilters
filters_of w override = record {
  project_id = override or_else unless_empty w.project_id;
  status = unless_empty w.status;
  query = unless_empty (trim w.query);
  include_archived = w.include_archived;
}

abbrev pub has_run : Text → List HistoryRun → Bool
has_run run runs = any (λ r. text_eq r.run_id run) runs

-- `setSelected` in `toggleSelected`
unfoldable pub toggle_among : Text → List Text → List Text
toggle_among run current =
    if any (λ item. text_eq item run) current
    then keep (λ item. not (text_eq item run)) current
    else if ltb (length current) 2
    then current ++ (run ∷ [])
    else current

unfoldable pub toggle_selected : Text → RunCenter → RunCenter
unfolding toggle_among
toggle_selected run w = record w { comparison = none; selected = toggle_among run w.selected }

-- The button that clears the selection.
abbrev pub clear_selection : RunCenter → RunCenter
clear_selection w = record w { selected = []; comparison = none }

abbrev pub set_loading : Bool → RunCenter → RunCenter
set_loading b w = record w { loading = b }

abbrev pub set_detail_loading : Bool → RunCenter → RunCenter
set_detail_loading b w = record w { detail_loading = b }

-- The detail after a list of `runs` has come, where `seen` is the detail of the click.
unfoldable pub kept_detail :
    Option HistoryRunDetail → List HistoryRun → Option HistoryRunDetail → Option HistoryRunDetail
kept_detail none runs detail = detail
kept_detail (some seen) runs detail = if has_run seen.run.run_id runs then detail else none

-- What `refresh` shows of an answer.
unfoldable pub show_page : Option HistoryRunDetail → HistoryPage → RunCenter → RunCenter
unfolding kept_detail
show_page seen page v = record v {
  runs = page.runs;
  total = page.total;
  detail = kept_detail seen page.runs v.detail;
}

unfoldable pub archived_detail : HistoryRunDetail → Bool → HistoryRunDetail
archived_detail detail archive = record detail { run = record detail.run { archived = archive } }

-- What is left to show when a run is deleted.
unfoldable pub forget_run : Text → RunCenter → RunCenter
forget_run run v = record v {
  detail = none;
  comparison = none;
  selected = keep (λ item. not (text_eq item run)) v.selected;
}
