-- ===== src/Workbench/Tests.antt =====
-- A workbench with a run that asks for approval, its actions with a daemon that answers, and the
-- theorems at them.
use mini_agent_oscoder.Prelude.{
  ◌≡◌, refl, true, false, none, some, List, [], ◌∷◌, Text, lit, text_eq, starts_with, trim, keep,
  trim_start, trim_end, is_space,
}
use mini_agent_oscoder.Json.{
  null, bool, str, obj, end, field, Value, TraceEvent, property, get, as_record,
}
use mini_agent_oscoder.I18n.{Locale, Tables}
use mini_agent_oscoder.Commands.{parse_task_command}
use mini_agent_oscoder.WorkItems.{payload_field}
use mini_agent_oscoder.WorkItems.Describe.{Translator}
use mini_agent_oscoder.Session.{
  PanelTarget, Session, RunResources, RunSubscription, stop_run_stream, request_runs,
}
use mini_agent_oscoder.Session.Loading.{LoadedRunHeader}
use mini_agent_oscoder.Session.Subscription.{
  handle_run_event, refresh_event_resources, apply_approval,
}
use mini_agent_oscoder.Run.Helpers.{is_evidence_event}
use mini_agent_oscoder.WorkItems
use mini_agent_oscoder.Files
use mini_agent_oscoder.Files.{WorkspaceChangeSet, has_changes}
use mini_agent_oscoder.Diff.{build_diff_files, parse_unified_diff}
use mini_agent_oscoder.Files.Sizes.{
  ReviewActions, ReviewStatus, normalize_review_status, reject_button,
}
use mini_agent_oscoder.Run.Helpers.{Checkpoint, has_visible_diff, latest_restorable_checkpoint}
use mini_agent_oscoder.Workbench.Review.Outcomes.{rollback-Ends}
use mini_agent_oscoder.Workbench.Review.{
  rollback_to_checkpoint, is_truthy_text, applied_review_actions, reject_latest_changes,
}
use mini_agent_oscoder.Workbench.Review.Buttons.{reject_button-restores}
use mini_agent_oscoder.Workbench.{
  Call, rollback_run, Workbench, Connection, Extension, ModelStatus, approve_action, create_run,
  get_admission, get_model_status, start_run, get_trace, get_model_route, get_formal_program,
  load_run_resources, Daemon, failed, replied, sent, run_script, gather, on_session, Ends,
}
use mini_agent_oscoder.Workbench.Launch.{
  start_follow_up, is_configured, is_blocked, can_start, launch_run, launch_answered,
  launch_checked, start_loaded, prepare_run, prepare_created, prepare_loaded, start_prepared,
}
use mini_agent_oscoder.Workbench.Launch.Idle.{IsIdle, launches-IsIdle}
use mini_agent_oscoder.Workbench.Launch.Admission.{is_start, launch_run-starts, prepare_run-starts}
use mini_agent_oscoder.Workbench.Control.{approves_patch, approve_answered}
use mini_agent_oscoder.Workbench.Panels.{
  compact, create_memory_action, update_memory_action, delete_memory_action, save_governance,
  save_extensions, create_extension,
}
use mini_agent_oscoder.Workbench.Panels.Busy.{Frees, panels-Frees}

abbrev patch_request : Value
patch_request = obj (
    field (lit "approval_id") (str (lit "p1"))
      (field (lit "target") (obj (field (lit "tool") (str (lit "apply_patch")) end)) end))

abbrev asking : Session
asking = record {
  run_id = some (lit "run_a");
  run_status = lit "waiting_approval";
  task = lit "fix it";
  mode = lit "Bugfix";
  contract = none;
  admission = none;
  model_route = none;
  context_pack = none;
  memory = none;
  governance = none;
  extensions = none;
  formal_program = none;
  artifacts = none;
  trace_events = [];
  final_message = [];
  termination_reason = [];
  last_observation = end;
  follow_up_task = [];
  steering_busy = false;
  completion = none;
  conversation = none;
  approval = some patch_request;
  recovery = none;
  evidence = none;
  report = none;
  recent_runs = none;
  error = none;
  runtime_details_open = false;
  runtime_panel_target = PanelTarget.overview;
  workspace_files_open = false;
  workspace_change_set = none;
  stream = some (record { run = lit "run_a"; project = some (lit "p") });
  pending = [];
}

abbrev workbench : Workbench
workbench = record {
  session = asking;
  workspace_path = lit "/p";
  project = some (record { project_id = lit "p"; path = lit "/p" });
  recent_projects = none;
  project_busy = false;
  connection = Connection.connected;
  busy = false;
  context_busy = false;
  memory_busy = false;
  governance_busy = false;
  extensions_busy = false;
  approval_busy = false;
  model_status = some (record { configured = true; issues = [] });
  model_config = none;
  history_open = false;
  history_run_id = none;
  model_setup_open = false;
  model_setup_busy = false;
  model_setup_error = none;
  rollback_busy = none;
}

abbrev tables : Tables
tables = record { en = []; zh = []; known = λ _. [] }

abbrev keys : Translator
keys key table = lit key

-- A daemon that cannot be reached.
abbrev silent : Daemon
silent call = failed none

abbrev header : LoadedRunHeader
header = record {
  run_id = lit "run_b";
  status = lit "planning";
  contract = none;
  admission = none;
  model_route = none;
  formal_program = none;
}

abbrev resources : RunResources
resources = record {
  context = null;
  trace = [];
  artifacts = null;
  recovery = null;
  report = null;
  evidence = null;
  memory = null;
  governance = null;
  extensions = null;
  formal_program = null;
  conversation = null;
}

-- A daemon that takes every request it is asked here, and admits every run.
abbrev willing : Daemon
willing (create_run _ _ _ _) = replied header
willing (start_run _) = replied (lit "running")
willing (load_run_resources _) = replied resources
willing (get_trace _) = replied []
willing (get_admission _) = replied (obj (field (lit "can_start") (bool true) end))
willing (get_model_route _) = replied null
willing (get_formal_program _) = replied null
willing (approve_action _ _) = replied null
willing (get_model_status _) = replied (record { configured = true; issues = [] })
willing _ = failed none

-- The requests of a launch, in their order.
launch-sent :
    sent willing (launch_run tables Locale.en keys workbench)
    ≡ get_trace (lit "run_a")
      ∷ get_admission (lit "run_a")
      ∷ get_model_route (lit "run_a")
      ∷ get_formal_program (lit "run_a")
      ∷ start_run (lit "run_a")
      ∷ []
unfolding sent launch_run launch_answered launch_checked start_loaded gather get as_record property
    text_eq lit
launch-sent = refl

launch_run-starts_example :
    (is_configured workbench.model_status ≡ true)
    × (run : Text) × (workbench.session.run_id ≡ some run)
    × (admission : Value) × (willing (get_admission run) ≡ replied admission)
    × (can_start admission ≡ true)
    × (keep is_start (sent willing (launch_run tables Locale.en keys workbench))
        ≡ start_run run ∷ [])
unfolding sent launch_run launch_answered launch_checked start_loaded gather get as_record property
    text_eq lit is_start
launch_run-starts_example = launch_run-starts willing tables Locale.en keys workbench refl

prepare_run-starts_example :
    (true ≡ true)
    × (task mode project : Text) × (run : LoadedRunHeader) × (willing
          (create_run project task mode none)
        ≡ replied run)
    × (is_blocked run ≡ false)
    × (status : ModelStatus) × (willing (get_model_status project) ≡ replied status)
    × (status.configured ≡ true)
    × (keep is_start
          (sent willing (prepare_run tables Locale.en keys workbench true (lit "fix it") none))
        ≡ start_run run.run_id ∷ [])
unfolding sent prepare_run prepare_created prepare_loaded start_prepared start_loaded gather get
    as_record property text_eq lit is_start parse_task_command starts_with trim trim_start trim_end
    is_space
prepare_run-starts_example =
    prepare_run-starts willing tables Locale.en keys workbench true (lit "fix it") none refl

abbrev finished : TraceEvent
finished = record {
  time = lit "t";
  event = lit "run.transitioned";
  payload = field (lit "status") (str (lit "completed")) end;
}

abbrev followed : RunSubscription
followed = record { run = lit "run_a"; project = some (lit "p") }

-- An approval that is answered after the event that ended the run: until the results of the run are
-- answered, the view shows it at work.
late_approval :
    let v =
      run_script willing
        (approve_answered tables Locale.en keys patch_request (replied (null, tt)))
        (on_session (handle_run_event followed finished) workbench) in
    (v.session.stream ≡ none) × (v.session.run_status ≡ lit "applying_patch")
unfolding run_script approve_answered handle_run_event refresh_event_resources apply_approval
    stop_run_stream request_runs payload_field property get as_record text_eq starts_with lit
    is_evidence_event approves_patch
late_approval = (refl, refl)

panels-Frees_example :
    Frees (λ v. v.context_busy) (compact tables Locale.en keys workbench null true) workbench
    × Frees
        (λ v. v.memory_busy)
        (create_memory_action tables Locale.en keys workbench null)
        workbench
    × Frees
        (λ v. v.memory_busy)
        (update_memory_action tables Locale.en keys workbench (lit "m") null)
        workbench
    × Frees
        (λ v. v.memory_busy)
        (delete_memory_action tables Locale.en keys workbench (lit "m"))
        workbench
    × Frees
        (λ v. v.governance_busy)
        (save_governance tables Locale.en keys workbench null)
        workbench
    × Frees
        (λ v. v.extensions_busy)
        (save_extensions tables Locale.en keys workbench null)
        workbench
    × Frees
        (λ v. v.extensions_busy)
        (create_extension tables Locale.en keys Extension.skill workbench null)
        workbench
panels-Frees_example =
    panels-Frees tables Locale.en keys workbench null true (lit "m") Extension.skill

launches-IsIdle_example :
    Ends IsIdle (prepare_run tables Locale.en keys workbench true (lit "fix it") none) workbench
    × Ends IsIdle (launch_run tables Locale.en keys workbench) workbench
    × Ends IsIdle (start_follow_up tables Locale.en keys workbench) workbench
launches-IsIdle_example =
    launches-IsIdle tables Locale.en keys workbench true (lit "fix it") none refl

-- The same run when it has ended, with a change that can be undone.
abbrev reviewing : Workbench
reviewing = record workbench {
  session = record asking {
    workspace_change_set = some (record {
      title = [];
      patch = [];
      changed_files = [];
      focus_path = none;
      focus_hunk = none;
      insertions = lit "1";
      deletions = lit "0";
      kind = WorkItems.ChangeKind.applied;
    });
  };
}

abbrev checkpoint : Checkpoint
checkpoint = record {
  checkpoint_id = lit "c1";
  trace_offset = 4;
  can_rollback = true;
  snapshot_available = true;
}

abbrev offered : ReviewActions
offered = record {
  status = none;
  busy = false;
  can_accept = some true;
  can_reject = some true;
  on_accept = true;
  on_reject = true;
}

abbrev shown_changes : WorkspaceChangeSet
shown_changes = record {
  title = [];
  patch = [];
  changed_files = lit "a.ts" ∷ [];
  focus_path = none;
  focus_hunk = none;
  kind = some Files.ChangeKind.applied;
}

reject_button-restores_example :
    (id : Text) × (rest : List Call) × (latest_restorable_checkpoint (some (checkpoint ∷ []))
      ≡ some id)
    × (sent silent (reject_latest_changes tables Locale.en keys reviewing (some (checkpoint ∷ [])))
        ≡ rollback_run (lit "run_a") id ∷ rest)
    × (normalize_review_status none ≡ ReviewStatus.pending)
    × (is_truthy_text reviewing.rollback_busy ≡ false)
unfolding has_visible_diff has_changes build_diff_files parse_unified_diff trim
reject_button-restores_example =
    reject_button-restores silent tables Locale.en keys reviewing (some shown_changes)
      (some (record { files = some 1; preview_available = true })) none (some (checkpoint ∷ []))
      offered (lit "run_a") refl
      (unfold applied_review_actions in unfold latest_restorable_checkpoint in unfold lit in refl)
      (unfold reject_button in unfold lit in refl)

rollback-Ends_example :
    Ends
      (λ v. v.rollback_busy ≡ none)
      (rollback_to_checkpoint tables Locale.en keys reviewing (lit "c1"))
      reviewing
    × Ends
        (λ v. v.rollback_busy ≡ none)
        (reject_latest_changes tables Locale.en keys reviewing (some (checkpoint ∷ [])))
        reviewing
rollback-Ends_example =
    rollback-Ends tables Locale.en keys reviewing (lit "c1") (some (checkpoint ∷ [])) refl
