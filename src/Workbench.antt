-- ===== src/Workbench.antt =====
-- frontend/src/pages/Workbench.tsx: the actions of the user. An action is a script: it updates the
-- state, awaits answers of the daemon and goes on with them. Everything that an action reads before
-- its first `await` it reads from the state of the click, as the closures of the source do.
pub mod Launch
pub mod Control
pub mod Panels
pub mod Projects
pub mod Review
mod Tests
use Prim.Native.String.{String}
use mini_agent_oscoder.Prelude.{
  ◌≡◌, refl, ◌⊎◌, inl, inr, ℕ, Bool, true, false, Option, none, some, List, [], ◌∷◌, ◌++◌, Text,
  lit, or_default,
}
unfoldable pub use mini_agent_oscoder.Scripts.{gather, run_script, sent}
pub use mini_agent_oscoder.Scripts.{
  Outcome, failed, replied, strict, optional, done, throws, update, await, Ends, each,
  Outcome-cases, gather-replied, gather-some,
}
use mini_agent_oscoder.Scripts
use mini_agent_oscoder.Json.{Value, Fields, TraceEvent}
use mini_agent_oscoder.I18n.{Locale, Table, Tables, localize_error_message}
use mini_agent_oscoder.Session.{Session, RunResources, request_runs}
use mini_agent_oscoder.Session.Loading.{LoadedRunHeader}
use mini_agent_oscoder.WorkItems.Describe.{Translator}

pub record Project : Type 0 where
  pub project_id : Text
  pub path : Text

pub record ModelStatus : Type 0 where
  pub configured : Bool
  pub issues : List Text

pub data Connection : Type 0 where
  checking connected offline : Connection

-- The state variables of the workbench that its actions write, beside those of the open run.
pub record Workbench : Type 0 where
  pub session : Session
  pub workspace_path : Text
  pub project : Option Project
  pub recent_projects : Option Value
  pub project_busy : Bool
  pub connection : Connection
  pub busy : Bool
  pub context_busy : Bool
  pub memory_busy : Bool
  pub governance_busy : Bool
  pub extensions_busy : Bool
  pub approval_busy : Bool
  pub model_status : Option ModelStatus
  pub model_config : Option Value
  pub history_open : Bool
  pub history_run_id : Option Text
  pub model_setup_open : Bool
  pub model_setup_busy : Bool
  pub model_setup_error : Option Text
  pub rollback_busy : Option Text

-- What the forms of the extensions create.
pub data Extension : Type 0 where
  skill mcp_server hook : Extension

-- The requests of the daemon. What a request to change something carries, beside the run, is a value.
pub data Call : Type 0 where
  create_run : (project task mode : Text) → (parent : Option Text) → Call
  start_run cancel_run resume_run load_run_resources get_trace get_admission get_model_route :
      (run : Text) → Call
  get_formal_program get_report get_evidence get_governance get_extensions get_conversation :
      (run : Text) → Call
  get_context get_checkpoints get_memory get_artifacts accept_changes : (run : Text) → Call
  steer_run : (run message : Text) → Call
  approve_action : (run : Text) → Option Value → Call
  deny_action : (run : Text) → Option Value → Text → Call
  compact_context : (run : Text) → (target_ratio : Value) → (confirmed : Bool) → Call
  create_memory update_governance update_extensions : (run : Text) → Value → Call
  create_part : (extension : Extension) → (run : Text) → Value → Call
  update_memory : (run memory : Text) → Value → Call
  delete_memory : (run memory : Text) → Call
  rollback_run : (run checkpoint : Text) → Call
  get_model_status get_model_config : (project : Text) → Call
  open_project : (path : Text) → Call
  health get_history_projects choose_directory : Call
  save_credential : (key : Text) → Call

pub record ResumedRun : Type 0 where
  pub header : LoadedRunHeader
  pub task : Text
  pub mode : Text
  pub project : Project
  pub artifacts : Option Value

-- What the daemon answers.
abbrev pub Reply : Call → Type 0
Reply (create_run _ _ _ _) = LoadedRunHeader
Reply (start_run _) = Text
Reply (cancel_run _) = Text
Reply (resume_run _) = ResumedRun
Reply (load_run_resources _) = RunResources
Reply (get_trace _) = List TraceEvent
Reply (get_model_status _) = ModelStatus
Reply (open_project _) = Project
Reply choose_directory = Option Text
Reply _ = Value

abbrev pub Ask : Type 0
Ask = Scripts.Ask Call

abbrev pub Replies : List Ask → Type 0
Replies = Scripts.Replies Reply

abbrev pub Script : Type 0
Script = Scripts.Script Workbench Call Reply

-- What a daemon answers to each request.
abbrev pub Daemon : Type 0
Daemon = (c : Call) → Outcome (Reply c)

abbrev pub on_session : (Session → Session) → Workbench → Workbench
on_session f w = record w { session = f w.session }

abbrev pub set_error : Option Text → Workbench → Workbench
set_error e w = on_session (λ s. record s { error = e }) w

-- `project?.project_id`
abbrev pub project_id_of : Option Project → Option Text
project_id_of none = none
project_id_of (some project) = some project.project_id

-- `void loadProjectRuns(projectId)`
abbrev pub refresh_runs : Option Text → Workbench → Workbench
refresh_runs project w = on_session (request_runs project) w

module _ (tables : Tables) (locale : Locale) (t : Translator) where
  -- `setError(localizeErrorMessage(locale, caught, t(key)))`
  abbrev pub show_error : String → Option Text → Workbench → Workbench
  show_error key caught w =
      set_error (some (localize_error_message tables locale caught (t key []))) w
