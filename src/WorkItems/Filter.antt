-- ===== src/WorkItems/Filter.antt =====
-- Which events of a trace the activity feed shows: `isResolvedModelRequest`, `isProcessEvent` and
-- the filter of `buildWorkItems`.
pub mod Requests
pub mod Shown
use mini_agent_oscoder.Prelude.{
  ℕ, zero, suc, ◌≡◌, Bool, true, false, not, ◌&&◌, ◌||◌, Option, none, some, List, [], ◌∷◌, Text,
  lit, text_eq, starts_with, one_of, among, if◌then◌else◌, get_elem?, drop,
}
use mini_agent_oscoder.Json.{
  Value, null, bool, number, str, arr, obj, TraceEvent, as_record, get, string_value,
}
use mini_agent_oscoder.WorkItems.{payload_field, action_name, action_id_from, name_in}

-- `a === b` on two values that were parsed apart: objects and arrays are never the same.
unfoldable pub strict_eq : Value → Value → Bool
strict_eq null null = true
strict_eq (bool true) (bool b) = b
strict_eq (bool false) (bool b) = not b
strict_eq (number _ s) (number _ t) = text_eq s t
strict_eq (str s) (str t) = text_eq s t
strict_eq _ _ = false

-- `step !== undefined && next.payload.step !== undefined && next.payload.step !== step`
unfoldable pub other_step : Option Value → Option Value → Bool
unfolding strict_eq
other_step (some a) (some b) = not (strict_eq b a)
other_step _ _ = false

abbrev pub is_request : TraceEvent → Bool
is_request e = text_eq e.event (lit "model.requested")

unfoldable pub is_resolving : TraceEvent → Bool
is_resolving e =
    one_of
      ("action.parsed" ∷ "tool.executed" ∷ "tool.failed" ∷ "approval.requested" ∷ "action.rejected"
        ∷ "model.failed" ∷ [])
      e.event

-- The loop over the events behind a request.
resolved_in : Option Value → List TraceEvent → Bool
resolved_in step [] = false
resolved_in step (next ∷ events) =
    let rest = resolved_in step events in
    if is_request next
    then true
    else if other_step step (payload_field next "step")
    then false
    else if is_resolving next
    then true
    else rest

-- `false` out of range, where the code would fault; the filter calls it in range only.
unfoldable pub is_resolved_model_request : List TraceEvent → ℕ → Bool
unfolding resolved_in
is_resolved_model_request events index = elim (get_elem? events index) [
  | none ↦ false
  | some e ↦
      if is_request e then resolved_in (payload_field e "step") (drop (suc index) events) else false
]

unfoldable pub is_completing : TraceEvent → Bool
is_completing e =
    one_of ("tool.executed" ∷ "tool.failed" ∷ "approval.requested" ∷ "action.rejected" ∷ []) e.event

-- The set `completedActionIds`, as the list of its additions.
add_id : Bool → Option Text → List Text → List Text
add_id true (some id) ids = id ∷ ids
add_id _ _ ids = ids

unfoldable pub completed_action_ids : List TraceEvent → List Text
unfolding add_id
completed_action_ids [] = []
completed_action_ids (e ∷ events) =
    add_id (is_completing e) (action_id_from e) (completed_action_ids events)

-- `actionName(event) === "finish" || !actionId || !completedActionIds.has(actionId)`
abbrev pub id_in : List Text → Option Text → Bool
id_in completed none = false
id_in completed (some id) = among completed id

unfoldable pub is_open_action : TraceEvent → List Text → Bool
is_open_action e completed =
    name_in (action_name e) ("finish" ∷ []) || not (id_in completed (action_id_from e))

unfoldable pub is_denial : TraceEvent → Bool
is_denial e =
    name_in (string_value (get (as_record (payload_field e "evaluation")) "outcome"))
      ("denied" ∷ "approval_denied" ∷ [])

unfoldable pub is_process_event : TraceEvent → List Text → Bool
is_process_event e completed =
    if text_eq e.event (lit "model.requested")
    then true
    else if text_eq e.event (lit "action.parsed")
    then is_open_action e completed
    else if one_of ("tool.executed" ∷ "tool.failed" ∷ []) e.event
    then true
    else if one_of ("approval.requested" ∷ "approval.resolved" ∷ "approval.cancelled" ∷ []) e.event
    then true
    else if text_eq e.event (lit "action.rejected")
    then true
    else if text_eq e.event (lit "action.superseded")
    then false
    else if one_of ("completion.passed" ∷ "completion.rejected" ∷ []) e.event
    then true
    else if one_of ("model.failed" ∷ "run.failed" ∷ "run.budget_exceeded" ∷ "run.cancelled" ∷ [])
        e.event
    then true
    else if text_eq e.event (lit "report.generated")
    then true
    else if starts_with e.event (lit "user.guidance.")
    then true
    else if text_eq e.event (lit "policy.evaluated")
    then is_denial e
    else false

-- `events.filter((event, index) => …)`, from an index on.
module _ (events : List TraceEvent) where
  shown_from : ℕ → List TraceEvent → List TraceEvent
  shown_from index [] = []
  shown_from index (e ∷ rest) =
      if is_process_event e (completed_action_ids events)
        && not (is_resolved_model_request events index)
      then e ∷ shown_from (suc index) rest
      else shown_from (suc index) rest

  unfoldable pub shown : List TraceEvent
  unfolding shown_from
  shown = shown_from 0 events
