-- ===== src/Session/Loading.antt =====
-- frontend/src/pages/Workbench.tsx: how a run is put into the view (`applyLoadedRun`,
-- `applyRunResources`), and how the view is cleared (`clearTerminalState`, `resetRunState`).
pub mod Separation
use mini_agent_oscoder.Prelude.{
  Bool, true, false, Option, none, some, List, [], ◌∷◌, Text, lit, ◌or_else◌, or_default,
  if◌then◌else◌,
}
use mini_agent_oscoder.Json.{Value, Fields, end}
use mini_agent_oscoder.Session.{PanelTarget, RunResources, Session, stop_run_stream}

pub record LoadedRunHeader : Type 0 where
  pub run_id : Text
  pub status : Text
  pub contract : Option Value
  pub admission : Option Value
  pub model_route : Option Value
  pub formal_program : Option Value

-- `closeWorkspaceFiles` of frontend/src/run/useWorkspaceReview.ts
unfoldable pub close_workspace_files : Session → Session
close_workspace_files s = record s { workspace_files_open = false; workspace_change_set = none }

unfoldable pub clear_terminal_state : Session → Session
unfolding close_workspace_files
clear_terminal_state s = close_workspace_files (record s {
  final_message = [];
  termination_reason = [];
  last_observation = end;
  completion = none;
  approval = none;
  runtime_details_open = false;
  runtime_panel_target = PanelTarget.overview;
})

unfoldable pub apply_run_resources : RunResources → Option Value → Session → Session
apply_run_resources resources artifacts_override s = record s {
  context_pack = some resources.context;
  artifacts = some (or_default artifacts_override resources.artifacts);
  recovery = some resources.recovery;
  report = some resources.report;
  evidence = some resources.evidence;
  memory = some resources.memory;
  governance = some resources.governance;
  extensions = some resources.extensions;
  formal_program = some resources.formal_program;
  conversation = some resources.conversation;
  trace_events = resources.trace;
}

unfoldable pub apply_loaded_run :
    LoadedRunHeader → Text → Text → RunResources → Option Value → Session → Session
unfolding apply_run_resources clear_terminal_state
apply_loaded_run run task_value mode_value resources artifacts_override s = clear_terminal_state (
    apply_run_resources resources artifacts_override (record s {
      task = task_value;
      mode = mode_value;
      run_id = some run.run_id;
      run_status = run.status;
      contract = run.contract;
      admission = run.admission;
      model_route = run.model_route;
      formal_program = some (or_default run.formal_program resources.formal_program);
    }))

unfoldable pub reset_run_state : Bool → Session → Session
unfolding close_workspace_files stop_run_stream
reset_run_state clear_task s0 =
    let s1 = stop_run_stream s0 in
    let s2 = record s1 {
      run_id = none;
      run_status = lit "idle";
      contract = none;
      admission = none;
      model_route = none;
      context_pack = none;
      memory = none;
      governance = none;
      extensions = none;
      formal_program = none;
      artifacts = none;
      trace_events = [];
      final_message = [];
      termination_reason = [];
      last_observation = end;
      follow_up_task = [];
      steering_busy = false;
      completion = none;
      conversation = none;
      approval = none;
      recovery = none;
      report = none;
      evidence = none;
      runtime_details_open = false;
      runtime_panel_target = PanelTarget.overview;
    } in
    let s3 = record (close_workspace_files s2) { error = none } in
    if clear_task then record s3 { task = [] } else s3
