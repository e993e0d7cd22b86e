-- ===== src/WorkItems.antt =====
-- frontend/src/activity/workItems.ts: what the trace of a run becomes in the activity feed. This
-- file has the types and the readers of an event; the children filter, classify and describe.
pub mod Filter
pub mod Present
pub mod Describe
mod Tests
use Prim.Native.String.{String}
use mini_agent_oscoder.Prelude.{
  ℕ, Bool, true, false, ◌||◌, Option, none, some, List, [], ◌∷◌, Text, lit, text_eq, one_of,
  if◌then◌else◌, ◌or_else◌, ◌>>=◌,
}
use mini_agent_oscoder.Json.{Value, Fields, TraceEvent, property, as_record, get, string_value}
use mini_agent_oscoder.Phases.{WorkItemPhase}

pub data WorkItemKind : Type 0 where
  action approval cancelled context danger file_diff file_edit file_read file_search : WorkItemKind
  file_tree memory model runtime sandbox success terminal user : WorkItemKind

pub data WorkItemCategory : Type 0 where
  approval change command file guidance result system thinking : WorkItemCategory

pub data ChangeKind : Type 0 where
  pending applied : ChangeKind

pub record WorkItemChangeSet : Type 0 where
  pub title : Text
  pub patch : Text
  pub changed_files : List Text
  pub focus_path : Option Text
  pub focus_hunk : Option Text
  pub insertions : Text
  pub deletions : Text
  pub kind : ChangeKind

pub record ProcessEvent : Type 0 where
  pub title : Text
  pub detail : Text
  pub chips : List Text
  pub change_set : Option WorkItemChangeSet
  pub output : Option Text
  pub output_label : Option Text

pub record WorkItem : Type 0 where
  pub process : ProcessEvent
  pub category : WorkItemCategory
  pub kind : WorkItemKind
  pub phase : WorkItemPhase
  pub tone : Text
  pub time : Text

-- `event.payload.key`
unfoldable pub payload_field : TraceEvent → String → Option Value
payload_field e key = property (lit key) e.payload

unfoldable pub action_from : TraceEvent → Option Fields
action_from e = as_record (payload_field e "action")

unfoldable pub result_from : TraceEvent → Option Fields
result_from e = as_record (payload_field e "result")

unfoldable pub approval_from : TraceEvent → Option Fields
approval_from e = as_record (payload_field e "approval")

unfoldable pub assessment_from : TraceEvent → Option Fields
assessment_from e = as_record (payload_field e "assessment")

unfoldable pub evaluation_from : TraceEvent → Option Fields
evaluation_from e = as_record (payload_field e "evaluation")

unfoldable pub target_from : TraceEvent → Option Fields
target_from e = as_record (get (approval_from e) "target")

unfoldable pub metadata_from : TraceEvent → Option Fields
metadata_from e = as_record (get (result_from e) "metadata") or_else target_from e

unfoldable pub request_from : TraceEvent → Option Fields
request_from e = as_record (payload_field e "request")

unfoldable pub response_from : TraceEvent → Option Fields
response_from e = as_record (payload_field e "response")

-- The last test of `actionName`, on the name that it found.
known_name : Option Text → Option Text
known_name none = none
known_name (some name) =
    if text_eq name (lit "action") || text_eq name (lit "unknown") then none else some name

unfoldable pub action_name : TraceEvent → Option Text
unfolding known_name
action_name e = known_name (
    string_value (get (action_from e) "type")
    or_else (string_value (get (result_from e) "tool")
        or_else string_value (get (target_from e) "tool")))

-- `name === "…" || …` for a name that may be missing.
abbrev pub name_in : Option Text → List String → Bool
name_in none words = false
name_in (some name) words = one_of words name

unfoldable pub action_id_from : TraceEvent → Option Text
action_id_from e = string_value (get (action_from e) "action_id")

unfoldable pub action_params : TraceEvent → Option Fields
action_params e = as_record (get (action_from e) "params")
