-- ===== src/WorkItems/Describe.antt =====
-- The words with which the feed describes an event: the labels, details, chips and previews of
-- frontend/src/activity/workItems.ts. The translator `t` that the source hands from function to
-- function is an argument here too; numbers among its variables are printed.
pub mod Localized
pub mod Events
pub mod Bounds
mod Tests
use Prim.Native.String.{String}
use mini_agent_oscoder.Prelude.{
  ℕ, zero, suc, ◌-◌, Bool, true, false, not, ◌&&◌, ◌||◌, Option, none, some, List, [], ◌∷◌, ◌++◌,
  Text, lit, text_eq, starts_with, ends_with, includes_i, one_of, non_empty, trim, any, last, take,
  length, leb, ◌==◌, if◌then◌else◌, ◌or_else◌, or_default, is_some,
}
use mini_agent_oscoder.Decimal.{print}
use mini_agent_oscoder.Json.{
  Value, bool, str, Fields, TraceEvent, as_record, get, string_value, number_value,
  array_of_strings, array_value, first_present,
}
use mini_agent_oscoder.I18n.{Locale, Table, Tables, is_zh, filled, squeeze, translate_known_text}
use mini_agent_oscoder.Diff.Focus.{focused_change_path, focused_patch_hunk}
use mini_agent_oscoder.WorkItems.{
  ChangeKind, WorkItemChangeSet, payload_field, result_from, target_from, metadata_from,
  request_from, response_from, assessment_from, evaluation_from, action_name, action_params,
  name_in,
}

abbrev pub Translator : Type 0
Translator = String → Table → Text

unfoldable pub compact_text : Text → ℕ → Text
compact_text value max =
    let normalized = trim (squeeze value) in
    if leb (length normalized) max then normalized else take (max - 1) normalized ++ 0x2026 ∷ []

-- `[^']*'$`
ends_quoted : Text → Bool
ends_quoted [] = false
ends_quoted (c ∷ []) = c == b'\''
ends_quoted (c ∷ d ∷ s) = not (c == b'\'') && ends_quoted (d ∷ s)

-- `/^'[^']+'$/`
is_quoted : Text → Bool
unfolding ends_quoted
is_quoted (q ∷ c ∷ s) = q == b'\'' && not (c == b'\'') && ends_quoted s
is_quoted _ = false

unfoldable pub is_internal_field_error : Text → Bool
unfolding is_quoted
is_internal_field_error value = is_quoted (trim value)

unfoldable pub contains_cjk : Text → Bool
contains_cjk value = any (λ c. leb 0x3400 c && leb c 0x9fff) value

unfoldable pub label_value : Text → Text → Text
label_value label value = if ends_with label (lit ":") then label ++ 32 ∷ value else label ++ value

unfoldable pub is_built_in_action : Text → Bool
is_built_in_action = one_of (
    "read_file" ∷ "search_code" ∷ "list_files" ∷ "run_command" ∷ "run_test" ∷ "run_lint"
    ∷ "git_status" ∷ "git_diff" ∷ "use_skill" ∷ "mcp_call" ∷ "apply_patch" ∷ "finish" ∷ [])

-- `metadata?.preflight === true`
abbrev pub is_true : Option Value → Bool
is_true (some (bool b)) = b
is_true _ = false

-- The first key whose names hold the action's name, in a ladder of tests.
abbrev pub ladder : List (String × String) → Option Text → String → String
ladder [] name other = other
ladder ((word, key) ∷ rest) name other =
    if name_in name (word ∷ []) then key else ladder rest name other

unfoldable pub action_label : Translator → TraceEvent → Text
action_label t e =
    t
      (ladder
        (("read_file", "activity.work.readFile")
          ∷ ("search_code", "activity.work.searchCode")
          ∷ ("list_files", "activity.work.listFiles")
          ∷ ("run_command", "activity.work.runCommand")
          ∷ ("run_test", "activity.work.runTest")
          ∷ ("run_lint", "activity.work.runLint")
          ∷ ("git_status", "activity.work.gitStatus")
          ∷ ("git_diff", "activity.work.gitDiff")
          ∷ ("use_skill", "activity.work.useSkill")
          ∷ ("mcp_call", "activity.work.mcpCall")
          ∷ (
            "apply_patch",
            if is_true (get (metadata_from e) "preflight")
                then "activity.work.checkPatch"
                else "activity.work.applyPatch",
          )
          ∷ ("finish", "activity.work.finish")
          ∷ [])
        (action_name e) "activity.work.generic")
      []

unfoldable pub action_detail : Translator → TraceEvent → Text
action_detail t e =
    t
      (ladder
        (("read_file", "activity.actionDetail.readFile")
          ∷ ("search_code", "activity.actionDetail.searchCode")
          ∷ ("list_files", "activity.actionDetail.listFiles")
          ∷ ("run_command", "activity.actionDetail.runCommand")
          ∷ ("run_test", "activity.actionDetail.runTest")
          ∷ ("run_lint", "activity.actionDetail.runLint")
          ∷ ("git_status", "activity.actionDetail.gitStatus")
          ∷ ("git_diff", "activity.actionDetail.gitDiff")
          ∷ ("use_skill", "activity.actionDetail.useSkill")
          ∷ ("mcp_call", "activity.actionDetail.mcpCall")
          ∷ (
            "apply_patch",
            if is_true (get (metadata_from e) "preflight")
                then "activity.actionDetail.checkPatch"
                else "activity.actionDetail.applyPatch",
          )
          ∷ ("finish", "activity.actionDetail.finish")
          ∷ [])
        (action_name e) "activity.detail.action")
      []

abbrev pub path_keys : List String
path_keys = "path" ∷ "file" ∷ "file_path" ∷ "target" ∷ []

abbrev pub query_keys : List String
query_keys = "query" ∷ "pattern" ∷ "symbol" ∷ []

-- `metadata?.files` as the number of its elements, if it is an array.
abbrev pub file_count : Option Value → Option ℕ
file_count v = elim (array_value v) [ none ↦ none | some files ↦ some (length files) ]

-- A title with one shortened text in it, where the text is there.
titled : Translator → String → String → ℕ → Option Text → Text → Text
titled t key name max none other = other
titled t key name max (some text) other = t key ((lit name, compact_text text max) ∷ [])

unfoldable pub executed_title : Translator → TraceEvent → Text
unfolding titled
executed_title t e =
    let name = action_name e in
    let params = action_params e in
    let metadata = metadata_from e in
    let command =
      first_present params ("command" ∷ "cmd" ∷ []) or_else string_value (get metadata "command") in
    let label = action_label t e in
    if name_in name ("read_file" ∷ [])
    then titled t "activity.title.readFile" "path" 56 (first_present params path_keys) label
    else if name_in name ("search_code" ∷ [])
    then titled t "activity.title.searchCode" "query" 56 (first_present params query_keys) label
    else if name_in name ("list_files" ∷ [])
    then t "activity.title.listFiles" []
    else if name_in name ("run_command" ∷ [])
    then titled t "activity.title.runCommand" "command" 64 command label
    else if name_in name ("run_test" ∷ [])
    then titled t "activity.title.runTests" "command" 64 command (t "activity.work.runTest" [])
    else if name_in name ("run_lint" ∷ [])
    then titled t "activity.title.runLint" "command" 64 command (t "activity.work.runLint" [])
    else if name_in name ("git_status" ∷ [])
    then t "activity.title.gitStatus" []
    else if name_in name ("git_diff" ∷ [])
    then t "activity.title.gitDiff" []
    else if name_in name ("use_skill" ∷ [])
    then t "activity.title.useSkill" []
    else if name_in name ("mcp_call" ∷ [])
    then t "activity.title.mcpCall" []
    else if name_in name ("apply_patch" ∷ [])
    then t "activity.title.editFiles"
        ((lit "count", print (or_default (file_count (get metadata "files")) 1)) ∷ [])
    else label

unfoldable pub output_label : Translator → TraceEvent → Text
output_label t e =
    let name = action_name e in
    if name_in name ("run_command" ∷ "run_test" ∷ "run_lint" ∷ [])
    then t "activity.outputCommand" []
    else if name_in name ("git_status" ∷ "git_diff" ∷ "apply_patch" ∷ [])
    then t "activity.outputChanges" []
    else if name_in name ("search_code" ∷ "list_files" ∷ [])
    then t "activity.outputResults" []
    else t "activity.outputSummary" []

-- `activityChangeSet`
unfoldable pub activity_change_set : Translator → TraceEvent → Option WorkItemChangeSet
activity_change_set t e =
    let target = target_from e in
    let files = array_of_strings (get target "files") in
    if text_eq e.event (lit "approval.requested") && name_in (action_name e) ("apply_patch" ∷ [])
    then elim (string_value (get target "patch")) [
      | none ↦ none
      | some patch ↦
          let focus = focused_change_path patch files in
          some (record {
            title = t "workspaceFiles.pendingChanges" [];
            patch = patch;
            changed_files = files;
            focus_path = focus;
            focus_hunk = focused_patch_hunk patch focus;
            insertions = or_default (number_value (get target "additions")) (lit "0");
            deletions = or_default (number_value (get target "deletions")) (lit "0");
            kind = ChangeKind.pending;
          })
    ]
    else none
