-- ===== src/History/Tests.antt =====
-- A history with two runs, one of them shown, and the theorems at them.
use mini_agent_oscoder.Prelude.{
  ◌≡◌, refl, ◌+◌, ◌*◌, ◌/◌, ◌%◌, ◌<◌, ◌≤◌, ◌++◌, ◌⊎◌, ◌↔◌, ℕ, true, false, none, some, [], ◌∷◌, lit,
  text_eq, trim, split_where, starts_with, split_lines, All,
}
use mini_agent_oscoder.Decimal.{print}
use mini_agent_oscoder.Json.{null}
use mini_agent_oscoder.I18n.{Locale, Tables}
use mini_agent_oscoder.WorkItems.Describe.{Translator}
use mini_agent_oscoder.Scripts.{Outcome, failed, replied, done, Ends, Keeps}
use mini_agent_oscoder.Diff.{
  DiffFile, build_diff_files, parse_unified_diff, split_chunks, parse_chunk, line_path, match_git,
}
use mini_agent_oscoder.History.{
  HistoryRun, HistoryRunDetail, RunCenter, HistoryCall, HistoryReply, get_history_projects,
  get_history_runs, get_history_run,
}
use mini_agent_oscoder.History.Actions.{
  deleted, refresh, inspect_run, compare_runs, toggle_archive, delete_run, resume_run,
  show_evaluation, scripts_of,
}
use mini_agent_oscoder.History.Selection.{IsSelection, scripts_of-KeepsSelection}
use mini_agent_oscoder.History.Waiting.{IsListed, IsSettled, actions-IsSettled}
use mini_agent_oscoder.History.Patches.{PatchSummary, history_patch_preview}
use mini_agent_oscoder.History.Durations.{IsWithin, format_duration, format_duration-IsNear}

abbrev tables : Tables
tables = record { en = []; zh = []; known = λ _. [] }

abbrev keys : Translator
keys key table = lit key

abbrev old_run : HistoryRun
old_run = record {
  run_id = lit "run_a";
  project_id = lit "project_a";
  project_path = lit "/work/a";
  status = lit "completed";
  archived = false;
  changed_files = [];
}

abbrev old_detail : HistoryRunDetail
old_detail = record {
  run = old_run;
  patch = record { available = true; content = [] };
  resume_available = false;
}

abbrev center : RunCenter
center = record {
  projects = [];
  runs = old_run ∷ [];
  total = 1;
  project_id = [];
  status = [];
  query = [];
  include_archived = false;
  detail = some old_detail;
  selected = lit "run_b" ∷ lit "run_a" ∷ [];
  comparison = none;
  evaluation = none;
  evaluation_open = false;
  loading = false;
  detail_loading = false;
  error = none;
}

-- A daemon that knows no run but the shown one.
abbrev answer : (c : HistoryCall) → Outcome (HistoryReply c)
answer get_history_projects = replied []
answer (get_history_runs _) = replied (record { runs = old_run ∷ []; total = 1 })
answer (get_history_run _) = failed none
answer _ = replied null

scripts_of-KeepsSelection_example :
    All (Keeps (λ w. IsSelection w.selected)) (scripts_of tables Locale.en keys center deleted)
scripts_of-KeepsSelection_example = scripts_of-KeepsSelection tables Locale.en keys center deleted

actions-IsSettled_example :
    Ends IsListed (refresh tables Locale.en keys center true none done) center
    × Ends IsSettled (inspect_run tables Locale.en keys (lit "run_a")) center
    × Ends IsSettled (compare_runs tables Locale.en keys center.selected) center
    × Ends IsSettled (toggle_archive tables Locale.en keys center) center
    × Ends IsSettled (delete_run tables Locale.en keys center) center
    × Ends IsSettled (resume_run tables Locale.en keys center) center
    × Ends IsSettled (show_evaluation tables Locale.en keys center) center
actions-IsSettled_example =
    actions-IsSettled tables Locale.en keys center (lit "run_a") true none refl

format_duration-rounds : format_duration (some 119_600) [] ≡ lit "1m 60s"
unfolding format_duration lit print
format_duration-rounds = refl

format_duration-IsNear_example :
    (119_600 < 1000) × (format_duration (some 119_600) [] ≡ print 119_600 ++ lit " ms")
    ⊎ ((n : ℕ) × (IsWithin 50 (100 * n) 119_600)
        × (n ≤ 600)
        × (format_duration (some 119_600) []
            ≡ print (n / 10) ++ (lit "." ++ (print (n % 10) ++ lit " s"))))
    ⊎ (m : ℕ) × (s : ℕ) × (IsWithin 500 (60000 * m + 1000 * s) 119_600)
      × (s ≤ 60)
      × ((s ≡ 60) ↔ (59500 ≤ 119_600 % 60000))
      × (format_duration (some 119_600) [] ≡ print m ++ (lit "m " ++ (print s ++ lit "s")))
format_duration-IsNear_example = format_duration-IsNear 119_600 []

abbrev patched : HistoryRunDetail
patched = record old_detail {
  patch = record { available = true; content = lit "diff --git a/x b/x\n+one\n-two\n-three" };
}

abbrev small_file : DiffFile
small_file = record {
  path = lit "x";
  additions = 1;
  deletions = 2;
  lines = lit "diff --git a/x b/x" ∷ lit "+one" ∷ lit "-two" ∷ lit "-three" ∷ [];
  has_patch = true;
}

abbrev small_summary : PatchSummary
small_summary = record {
  insertions = 1;
  deletions = 2;
  count = 1;
  rows = small_file ∷ [];
  more = 0;
}

small_preview : history_patch_preview patched ≡ some small_summary
unfolding history_patch_preview lit build_diff_files parse_unified_diff trim split_chunks
    split_where starts_with parse_chunk split_lines line_path match_git text_eq
small_preview = refl
