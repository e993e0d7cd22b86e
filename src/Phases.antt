-- ===== src/Phases.antt =====
-- frontend/src/activity/phases.ts: the phase of a trace payload, and the runs of equal phases that
-- the activity feed shows as groups. A generic `T extends { phase, time }` is a type with its two
-- readers.
pub mod Grouping
mod Tests
use mini_agent_oscoder.Prelude.{
  ℕ, zero, suc, ◌≡◌, refl, Bool, true, false, ◌||◌, Option, none, some, List, [], ◌∷◌, ◌++◌, Text,
  lit, text_eq, one_of, if◌then◌else◌, ◌or_else◌, length, last,
}
use mini_agent_oscoder.Decimal.{print}
use mini_agent_oscoder.Json.{Value, str, Fields, property, as_record, get}

pub data WorkItemPhase : Type 0 where
  change context inspect summary validate : WorkItemPhase

-- The text of a phase, as the template of a key prints it.
unfoldable pub phase_text : WorkItemPhase → Text
unfolding lit
phase_text change = lit "change"
phase_text context = lit "context"
phase_text inspect = lit "inspect"
phase_text summary = lit "summary"
phase_text validate = lit "validate"

abbrev pub same_phase : WorkItemPhase → WorkItemPhase → Bool
same_phase change change = true
same_phase context context = true
same_phase inspect inspect = true
same_phase summary summary = true
same_phase validate validate = true
same_phase _ _ = false

-- A `TracePhase` is a text that passes this test.
unfoldable pub is_trace_phase : Text → Bool
is_trace_phase = one_of (
    "applying_patch" ∷ "cancelled" ∷ "completed" ∷ "created" ∷ "failed" ∷ "inspect" ∷ "planning"
    ∷ "repair" ∷ "testing" ∷ "verify" ∷ "waiting_approval" ∷ "work" ∷ [])

unfoldable pub trace_phase_value : Option Value → Option Text
trace_phase_value (some (str s)) = if is_trace_phase s then some s else none
trace_phase_value _ = none

unfoldable pub ui_phase_from_trace_phase : Text → WorkItemPhase
ui_phase_from_trace_phase phase =
    if text_eq phase (lit "inspect")
    then inspect
    else if text_eq phase (lit "work")
        || text_eq phase (lit "repair")
        || text_eq phase (lit "waiting_approval")
        || text_eq phase (lit "applying_patch")
    then change
    else if text_eq phase (lit "verify") || text_eq phase (lit "testing")
    then validate
    else if text_eq phase (lit "completed")
        || text_eq phase (lit "failed")
        || text_eq phase (lit "cancelled")
    then summary
    else context

unfoldable pub work_phase_from_trace_payload : Fields → Option WorkItemPhase
work_phase_from_trace_payload payload =
    let request = as_record (property (lit "request") payload) in
    let metadata = as_record (get request "metadata") in
    let phase =
      trace_phase_value (property (lit "phase") payload)
      or_else trace_phase_value (get metadata "capability_phase") in
    elim phase [ none ↦ none | some p ↦ some (ui_phase_from_trace_phase p) ]

pub record PhaseGroup (T : Type 0) : Type 0 where
  pub key : Text
  pub phase : WorkItemPhase
  pub items : List T

module _ {T : Type 0} (phase_of : T → WorkItemPhase) (time_of : T → Text) where
  -- `${groups.length}-${item.phase}-${item.time}` in front of a group of one item.
  new_group : ℕ → T → PhaseGroup T
  new_group count item = record {
    key = print count ++ b'-' ∷ (phase_text (phase_of item) ++ b'-' ∷ time_of item);
    phase = phase_of item;
    items = item ∷ [];
  }

  -- `current.items.push(item)` on the last of the groups.
  push_to_last : List (PhaseGroup T) → T → List (PhaseGroup T)
  push_to_last [] item = []
  push_to_last (g ∷ []) item = record g { items = g.items ++ item ∷ [] } ∷ []
  push_to_last (g ∷ h ∷ groups) item = g ∷ push_to_last (h ∷ groups) item

  -- One round of the loop.
  add_item : List (PhaseGroup T) → T → List (PhaseGroup T)
  unfolding new_group push_to_last
  add_item groups item = elim (last groups) [
    | none ↦ groups ++ new_group (length groups) item ∷ []
    | some current ↦
        if same_phase current.phase (phase_of item)
        then push_to_last groups item
        else groups ++ new_group (length groups) item ∷ []
  ]

  group_from : List (PhaseGroup T) → List T → List (PhaseGroup T)
  group_from groups [] = groups
  group_from groups (item ∷ items) = group_from (add_item groups item) items

  unfoldable pub build_phase_groups : List T → List (PhaseGroup T)
  unfolding group_from add_item
  build_phase_groups items = group_from [] items
