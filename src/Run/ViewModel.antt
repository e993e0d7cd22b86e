-- ===== src/Run/ViewModel.antt =====
-- frontend/src/run/viewModel.ts: what the page shows of a run. Keys of the translations are texts, and
-- the translator is an argument; `useMemo` is left out, since it changes no value.
mod Statuses
mod Steering
mod Tests
use mini_agent_oscoder.Prelude.{
  ℕ, Bool, true, false, not, ◌&&◌, Option, none, some, List, [], ◌∷◌, ◌++◌, Text, lit, text_eq,
  one_of, among, find, keep, if◌then◌else◌, ◌or_else◌, or_default, non_empty,
}
use mini_agent_oscoder.Json.{Value, str, Fields, end, field, TraceEvent}
use mini_agent_oscoder.I18n.{Locale, Tables, translate_known_text}
use mini_agent_oscoder.WorkItems.{payload_field}

pub record RunCopy : Type 0 where
  pub title : Text
  pub description : Text

abbrev copy : Text → Text → RunCopy
copy title description = record { title = title; description = description }

-- `RUN_COPY[status]`
unfoldable pub run_copy : Text → Option RunCopy
run_copy status =
    if text_eq status (lit "running")
    then some (copy (lit "run.runningTitle") (lit "run.runningDescription"))
    else if text_eq status (lit "waiting_approval")
    then some (copy (lit "run.approvalTitle") (lit "run.approvalDescription"))
    else if text_eq status (lit "applying_patch")
    then some (copy (lit "run.applyingTitle") (lit "run.applyingDescription"))
    else if text_eq status (lit "testing")
    then some (copy (lit "run.testingTitle") (lit "run.testingDescription"))
    else if text_eq status (lit "repairing")
    then some (copy (lit "run.repairingTitle") (lit "run.repairingDescription"))
    else if text_eq status (lit "cancellation_requested")
    then some (copy (lit "run.stoppingTitle") (lit "run.runningDescription"))
    else if text_eq status (lit "completed")
    then some (copy (lit "run.completedTitle") (lit "run.completedDescription"))
    else if text_eq status (lit "failed")
    then some (copy (lit "run.failedTitle") (lit "run.failedDescription"))
    else if text_eq status (lit "cancelled")
    then some (copy (lit "run.cancelledTitle") (lit "run.cancelledDescription"))
    else none

-- `ACTIVE_STATUSES.has(status)`
unfoldable pub run_is_active : Text → Bool
run_is_active = one_of (
    "running" ∷ "waiting_approval" ∷ "applying_patch" ∷ "testing" ∷ "repairing"
    ∷ "cancellation_requested" ∷ [])

-- `TERMINAL_STATUSES.has(status)`
unfoldable pub terminal : Text → Bool
terminal = one_of ("completed" ∷ "failed" ∷ "cancelled" ∷ [])

abbrev has_run : Option Text → Bool
has_run none = false
has_run (some id) = non_empty id

unfoldable pub shown_copy : Option Text → Text → RunCopy
unfolding run_copy
shown_copy run_id status =
    if has_run run_id
    then or_default (run_copy status) (copy (lit "run.readyTitle") (lit "run.readyDescription"))
    else copy (lit "run.idleTitle") (lit "run.idleDescription")

unfoldable pub run_title : (Text → Text) → Option Text → Text → Text
unfolding shown_copy
run_title t run_id status = t ((shown_copy run_id status).title)

unfoldable pub display_status : Option Text → Text → Text → Text
display_status run_id status connection = if has_run run_id then status else connection

unfoldable pub run_is_prepared : Option Text → Text → Bool
run_is_prepared run_id status = has_run run_id && text_eq status (lit "planning")

pub record ConversationTurn : Type 0 where
  pub run_id : Text
  pub turn_index : ℕ

turn_of : Text → List ConversationTurn → ℕ
turn_of id turns = elim (find (λ (turn : ConversationTurn). text_eq turn.run_id id) turns) [
  | none ↦ 0
  | some turn ↦ turn.turn_index
]

-- A turn always names its run, so none is found while there is no run.
unfoldable pub current_turn_index : Option (List ConversationTurn) → Option Text → ℕ
unfolding turn_of
current_turn_index (some turns) (some id) = turn_of id turns
current_turn_index _ _ = 0

unfoldable pub follow_up_templates : List Text
follow_up_templates =
    lit "session.template.fixFailure"
    ∷ lit "session.template.addTests"
    ∷ lit "session.template.explainChanges"
    ∷ []

unfoldable pub visible_follow_up_templates : Text → List Text
unfolding follow_up_templates
visible_follow_up_templates status =
    if text_eq status (lit "completed")
    then keep (λ key. not (text_eq key (lit "session.template.fixFailure"))) follow_up_templates
    else keep (λ key. not (text_eq key (lit "session.template.addTests"))) follow_up_templates

pub record SteeringMessage : Type 0 where
  pub message : Text
  pub applied : Bool

abbrev message_text : Option Value → List Text
message_text (some (str m)) = m ∷ []
message_text _ = []

-- The texts of the events of one name.
unfoldable pub messages_of : Text → List TraceEvent → List Text
messages_of name [] = []
messages_of name (e ∷ events) =
    (if text_eq e.event name then message_text (payload_field e "message") else [])
    ++ messages_of name events

flag_messages : List Text → List Text → List SteeringMessage
flag_messages applied [] = []
flag_messages applied (m ∷ messages) =
    record { message = m; applied = among applied m } ∷ flag_messages applied messages

unfoldable pub steering_messages : List TraceEvent → List SteeringMessage
unfolding flag_messages
steering_messages events =
    flag_messages (messages_of (lit "user.guidance.applied") events)
      (messages_of (lit "user.guidance.queued") events)

-- What the view reads of a contract; `Object.entries` lists the policies in their order.
pub record AgentContract : Type 0 where
  pub allow : List Text
  pub policies : Fields
  pub cost_envelope : Value

pub record Policy : Type 0 where
  pub name : Text
  pub value : Value

pub record DisplayContract : Type 0 where
  pub effects : List Text
  pub policies : List Policy
  pub budget : Option Value

entries : Fields → List Policy
entries end = []
entries (field name value fields) = record { name = name; value = value } ∷ entries fields

unfoldable pub display_contract : Option AgentContract → DisplayContract
unfolding entries
display_contract none = record { effects = []; policies = []; budget = none }
display_contract (some contract) = record {
  effects = contract.allow;
  policies = entries contract.policies;
  budget = some contract.cost_envelope;
}

pub record DiffSummary : Type 0 where
  pub files : ℕ
  pub insertions : ℕ
  pub deletions : ℕ
  pub status : Text

pub record TestSummary : Type 0 where
  pub command : Text
  pub status : Text
  pub passed : ℕ
  pub failed : ℕ

-- What the view reads of the artifacts of a run.
pub record RunArtifacts : Type 0 where
  pub diff_summary : DiffSummary
  pub plan : List Value
  pub test_summary : TestSummary

unfoldable pub display_diff : Option RunArtifacts → DiffSummary
display_diff none = record { files = 0; insertions = 0; deletions = 0; status = lit "Not run" }
display_diff (some a) = a.diff_summary

unfoldable pub display_plan : Option RunArtifacts → List Value
display_plan none = []
display_plan (some a) = a.plan

unfoldable pub display_tests : Option RunArtifacts → TestSummary
display_tests none = record { command = lit "-"; status = lit "Not run"; passed = 0; failed = 0 }
display_tests (some a) = a.test_summary

unfoldable pub display_task : Tables → Locale → Text → Text
display_task tables locale task = translate_known_text tables locale task
