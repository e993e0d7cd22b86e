-- ===== src/WorkItems/Present.antt =====
-- The kind, tone, category and phase of an event: `eventPresentation`, `workPresentation`,
-- `workCategory`, `workPhase`, and the state of the whole run, `activityState`.
pub mod Failures
use Prim.Native.String.{String}
use mini_agent_oscoder.Prelude.{
  Bool, ◌||◌, Option, none, some, List, [], ◌∷◌, Text, lit, text_eq, starts_with, includes, one_of,
  if◌then◌else◌,
}
use mini_agent_oscoder.Json.{TraceEvent}
use mini_agent_oscoder.Phases.{WorkItemPhase, work_phase_from_trace_payload}
use mini_agent_oscoder.WorkItems.{WorkItemKind, WorkItemCategory, action_name, name_in}

-- `a.startsWith(p) || …`
abbrev pub starts_with_any : Text → List String → Bool
starts_with_any s [] = Bool.false
starts_with_any s (p ∷ ps) = starts_with s (lit p) || starts_with_any s ps

pub record Presentation : Type 0 where
  pub kind : WorkItemKind
  pub tone : Text

abbrev present_as : WorkItemKind → String → Presentation
present_as kind tone = record { kind = kind; tone = lit tone }

unfoldable pub event_presentation : Text → Presentation
event_presentation event =
    if starts_with event (lit "user.guidance.")
    then present_as WorkItemKind.user "action"
    else if starts_with event (lit "model.")
    then present_as WorkItemKind.model "model"
    else if starts_with event (lit "tool.")
    then present_as WorkItemKind.action "tool"
    else if starts_with event (lit "action.")
    then present_as WorkItemKind.action "action"
    else if starts_with event (lit "approval.")
    then present_as WorkItemKind.approval "approval"
    else if starts_with event (lit "patch.")
    then present_as WorkItemKind.file_diff "patch"
    else if starts_with event (lit "repair.")
    then present_as WorkItemKind.runtime "approval"
    else if starts_with event (lit "rollback.")
    then present_as WorkItemKind.file_diff "patch"
    else if starts_with event (lit "memory.")
    then present_as WorkItemKind.memory "model"
    else if starts_with event (lit "context.")
    then present_as WorkItemKind.context "tool"
    else if starts_with_any event ("policy." ∷ "governance." ∷ [])
    then present_as WorkItemKind.approval "approval"
    else if starts_with event (lit "sandbox.")
    then present_as WorkItemKind.sandbox "tool"
    else if starts_with_any event ("skill." ∷ "mcp." ∷ "hook." ∷ "extension." ∷ [])
    then present_as WorkItemKind.model "model"
    else if text_eq event (lit "report.generated")
    then present_as WorkItemKind.file_read "success"
    else if text_eq event (lit "run.finished")
    then present_as WorkItemKind.success "success"
    else if text_eq event (lit "run.cancelled")
    then present_as WorkItemKind.cancelled "muted"
    else if includes event (lit "failed") || includes event (lit "exceeded")
    then present_as WorkItemKind.danger "danger"
    else present_as WorkItemKind.runtime "runtime"

-- The tests of `workPresentation` on the name of the action, and what stands behind them.
present_action : Option Text → Text → Presentation
present_action name event =
    if name_in name ("read_file" ∷ [])
    then present_as WorkItemKind.file_read "tool"
    else if name_in name ("search_code" ∷ [])
    then present_as WorkItemKind.file_search "tool"
    else if name_in name ("list_files" ∷ [])
    then present_as WorkItemKind.file_tree "tool"
    else if name_in name ("run_command" ∷ "run_test" ∷ "run_lint" ∷ [])
    then present_as WorkItemKind.terminal "action"
    else if name_in name ("git_status" ∷ "git_diff" ∷ [])
    then present_as WorkItemKind.file_diff "tool"
    else if name_in name ("use_skill" ∷ "mcp_call" ∷ [])
    then present_as WorkItemKind.model "model"
    else if name_in name ("apply_patch" ∷ [])
    then present_as WorkItemKind.file_edit "patch"
    else if name_in name ("finish" ∷ []) || text_eq event (lit "report.generated")
    then present_as WorkItemKind.success "success"
    else if starts_with event (lit "user.guidance.")
    then present_as WorkItemKind.user "action"
    else event_presentation event

unfoldable pub work_presentation : TraceEvent → Presentation
unfolding present_action
work_presentation e =
    if one_of ("approval.requested" ∷ "approval.resolved" ∷ "approval.cancelled" ∷ []) e.event
    then present_as WorkItemKind.approval "approval"
    else if text_eq e.event (lit "completion.passed")
    then present_as WorkItemKind.success "success"
    else if text_eq e.event (lit "completion.rejected")
    then present_as WorkItemKind.danger "warning"
    else if one_of ("policy.evaluated" ∷ "action.rejected" ∷ []) e.event
    then present_as WorkItemKind.approval "danger"
    else if includes e.event (lit "failed") || includes e.event (lit "exceeded")
    then present_as WorkItemKind.danger "danger"
    else present_action (action_name e) e.event

unfoldable pub work_category : TraceEvent → WorkItemCategory
work_category e =
    if starts_with e.event (lit "model.")
    then WorkItemCategory.thinking
    else if starts_with e.event (lit "user.guidance.")
    then WorkItemCategory.guidance
    else if name_in (action_name e) ("apply_patch" ∷ "git_status" ∷ "git_diff" ∷ [])
        || starts_with_any e.event ("patch." ∷ "rollback." ∷ [])
    then WorkItemCategory.change
    else if starts_with e.event (lit "approval.")
        || one_of ("policy.evaluated" ∷ "action.rejected" ∷ []) e.event
    then WorkItemCategory.approval
    else if one_of ("completion.passed" ∷ "completion.rejected" ∷ "report.generated" ∷ []) e.event
        || starts_with e.event (lit "run.")
    then WorkItemCategory.result
    else if name_in (action_name e) ("read_file" ∷ "search_code" ∷ "list_files" ∷ [])
    then WorkItemCategory.file
    else if name_in (action_name e) ("run_command" ∷ "run_test" ∷ "run_lint" ∷ [])
    then WorkItemCategory.command
    else if name_in (action_name e) ("finish" ∷ [])
    then WorkItemCategory.result
    else WorkItemCategory.system

unfoldable pub trace_phase : TraceEvent → Option WorkItemPhase
trace_phase e = work_phase_from_trace_payload e.payload

-- `workPhase` for an event whose payload names no phase.
unfoldable pub phase_by_name : Option Text → Text → WorkItemPhase
phase_by_name name event =
    if one_of ("completion.passed" ∷ "completion.rejected" ∷ "report.generated" ∷ []) event
      || starts_with event (lit "run.")
      || name_in name ("finish" ∷ [])
    then WorkItemPhase.summary
    else if name_in name ("run_command" ∷ "run_test" ∷ "run_lint" ∷ [])
    then WorkItemPhase.validate
    else if name_in name ("apply_patch" ∷ [])
        || starts_with_any event ("approval." ∷ "patch." ∷ "rollback." ∷ [])
    then WorkItemPhase.change
    else if name_in name ("read_file" ∷ "search_code" ∷ "git_status" ∷ "git_diff" ∷ [])
    then WorkItemPhase.inspect
    else if name_in name ("list_files" ∷ [])
        || starts_with_any event ("context." ∷ "memory." ∷ "model." ∷ [])
    then WorkItemPhase.context
    else WorkItemPhase.context

unfoldable pub work_phase : TraceEvent → WorkItemPhase
unfolding phase_by_name
work_phase e = elim (trace_phase e) [
  | some phase ↦ phase
  | none ↦ phase_by_name (action_name e) e.event
]

pub data ActivityKey : Type 0 where
  live completed failed cancelled paused : ActivityKey

pub record ActivityState : Type 0 where
  pub key : ActivityKey
  pub tone : Text

unfoldable pub activity_state : Text → ActivityState
activity_state status =
    if one_of
      ("running" ∷ "applying_patch" ∷ "testing" ∷ "repairing" ∷ "cancellation_requested" ∷ [])
      status
    then record { key = ActivityKey.live; tone = lit "active" }
    else if text_eq status (lit "completed")
    then record { key = ActivityKey.completed; tone = lit "completed" }
    else if text_eq status (lit "failed")
    then record { key = ActivityKey.failed; tone = lit "failed" }
    else if text_eq status (lit "cancelled")
    then record { key = ActivityKey.cancelled; tone = lit "cancelled" }
    else record { key = ActivityKey.paused; tone = lit "paused" }
