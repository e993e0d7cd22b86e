-- ===== src/Session.antt =====
-- The state of a run in the workbench (frontend/src/pages/Workbench.tsx), as far as the events of
-- the run and the loading of runs write it. Each React state variable is a field; what the daemon
-- answers is kept as the JSON value that it is. `stream` is the open subscription to a run, and
-- `pending` holds the requests to the daemon that have not been answered.
pub mod Subscription
pub mod Loading
mod Tests
use mini_agent_oscoder.Prelude.{
  ◌≡◌, Bool, true, false, Option, none, some, List, [], ◌∷◌, ◌++◌, Text, lit, non_empty,
  if◌then◌else◌,
}
use mini_agent_oscoder.Json.{Value, Fields, TraceEvent}
use mini_agent_oscoder.WorkItems.{WorkItemChangeSet}

pub data PanelTarget : Type 0 where
  overview program context memory governance extensions changes : PanelTarget

-- What a run's panels show, one constructor for each request that an event can cause.
pub data Resource : Type 0 where
  artifacts recovery report evidence context_pack memory governance extensions : Resource

-- A subscription to the events of a run: `handleRunEvent` keeps the `options` of the render that
-- subscribed, and with them the identifier of the project that was open in it, which
-- `onProjectRunsRefresh` asks for.
pub record RunSubscription : Type 0 where
  pub run : Text
  pub project : Option Text

pub data Pending : Type 0 where
  fetch : (run : Text) → Resource → Pending
  -- `Promise.all([getRun(run), loadRunResources(run)])`
  terminal_load : (subscription : RunSubscription) → Pending
  project_runs : (project : Text) → Pending

pub record RunSummary : Type 0 where
  pub status : Text
  pub final_message : Option Text
  pub termination_reason : Option Text
  pub last_observation : Option Fields
  pub completion : Option Value

pub record RunResources : Type 0 where
  pub context : Value
  pub trace : List TraceEvent
  pub artifacts : Value
  pub recovery : Value
  pub report : Value
  pub evidence : Value
  pub memory : Value
  pub governance : Value
  pub extensions : Value
  pub formal_program : Value
  pub conversation : Value

pub record Session : Type 0 where
  pub run_id : Option Text
  pub run_status : Text
  pub task : Text
  pub mode : Text
  pub contract : Option Value
  pub admission : Option Value
  pub model_route : Option Value
  pub context_pack : Option Value
  pub memory : Option Value
  pub governance : Option Value
  pub extensions : Option Value
  pub formal_program : Option Value
  pub artifacts : Option Value
  pub trace_events : List TraceEvent
  pub final_message : Text
  pub termination_reason : Text
  pub last_observation : Fields
  pub follow_up_task : Text
  pub steering_busy : Bool
  pub completion : Option Value
  pub conversation : Option Value
  pub approval : Option Value
  pub recovery : Option Value
  pub evidence : Option Value
  pub report : Option Value
  pub recent_runs : Option Value
  pub error : Option Text
  pub runtime_details_open : Bool
  pub runtime_panel_target : PanelTarget
  pub workspace_files_open : Bool
  pub workspace_change_set : Option WorkItemChangeSet
  pub stream : Option RunSubscription
  pub pending : List Pending

-- `request(…).then(setX).catch(() => undefined)`: the request goes out, and its answer is awaited.
abbrev pub request : Pending → Session → Session
request p s = record s { pending = s.pending ++ p ∷ [] }

-- `loadProjectRuns(projectId)`, which returns at once without a project.
unfoldable pub request_runs : Option Text → Session → Session
request_runs none s = s
request_runs (some project) s = if non_empty project then request (project_runs project) s else s

-- `stopRunStream`
unfoldable pub stop_run_stream : Session → Session
stop_run_stream s = record s { stream = none }

-- `subscribeToRun`: an open stream is closed first.
unfoldable pub subscribe_to_run : RunSubscription → Session → Session
unfolding stop_run_stream
subscribe_to_run subscription s = record (stop_run_stream s) { stream = some subscription }
