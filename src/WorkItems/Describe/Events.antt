-- ===== src/WorkItems/Describe/Events.antt =====
-- What the feed says of an event, `processEvent`, and the whole feed, `buildWorkItems`, of
-- frontend/src/activity/workItems.ts.
use Prim.Native.String.{String}
use mini_agent_oscoder.Prelude.{
  ◌||◌, Option, none, some, List, [], ◌∷◌, map, Text, lit, text_eq, starts_with, includes_i,
  non_empty, trim, keep, join, or_text, if◌then◌else◌, ◌or_else◌, or_default, is_some,
}
use mini_agent_oscoder.Json.{Value, str, TraceEvent, get, string_value, number_value, first_present}
use mini_agent_oscoder.I18n.{Locale, Tables, translate_known_text}
use mini_agent_oscoder.WorkItems.{
  ProcessEvent, WorkItem, payload_field, action_from, result_from, action_name, action_params,
  name_in,
}
use mini_agent_oscoder.WorkItems.Filter.{shown}
use mini_agent_oscoder.WorkItems.Present.{work_presentation, work_category, work_phase}
use mini_agent_oscoder.WorkItems.Describe.{
  Translator, is_internal_field_error, action_label, action_detail, executed_title, output_label,
  activity_change_set,
}
use mini_agent_oscoder.WorkItems.Describe.Localized.{
  activity_chips, rationale_detail, output_preview, assessment_summary, policy_summary,
}

abbrev pub said : Text → Text → List Text → ProcessEvent
said title detail chips = record {
  title = title;
  detail = detail;
  chips = chips;
  change_set = none;
  output = none;
  output_label = none;
}

-- `typeof value === "string" && value.trim()`, with the text as it is.
abbrev pub full_text : Option Value → Option Text
full_text (some (str s)) = if non_empty (trim s) then some s else none
full_text _ = none

-- `value ? t(key, { name: value }) : ""`
counted : Translator → String → String → Option Text → Text
counted t key name none = []
counted t key name (some n) = t key ((lit name, n) ∷ [])

-- The titles of an event with a reason for its end.
unfoldable pub ended_key : Text → String
ended_key event =
    if text_eq event (lit "run.cancelled")
    then "activity.title.cancelled"
    else if text_eq event (lit "run.budget_exceeded")
    then "activity.title.budgetExceeded"
    else if text_eq event (lit "run.failed")
    then "activity.title.failed"
    else "activity.title.runtime"

module _ (tables : Tables) (locale : Locale) (t : Translator) where
  abbrev known_or : Option Text → Text → Text
  known_or none fallback = fallback
  known_or (some s) fallback = translate_known_text tables locale s

  unfoldable pub model_failed_event : TraceEvent → ProcessEvent
  model_failed_event e =
      let raw =
        string_value (payload_field e "error") or_else string_value (get (result_from e) "error") in
      let raw_text = or_default raw [] in
      let timed_out =
        includes_i raw_text (lit "timeout") || includes_i raw_text (lit "timed out") in
      said
        (t (if timed_out then "activity.title.modelTimeout" else "activity.title.modelFailed") [])
        (known_or raw (
          t (if timed_out then "activity.detail.modelTimeout" else "activity.detail.modelFailed")
            []))
        (activity_chips tables locale e t)

  rejection_detail : Option Text → Text
  rejection_detail none = t "activity.detail.invalidAction" []
  rejection_detail (some s) =
      if is_internal_field_error s
      then t "activity.detail.invalidAction" []
      else translate_known_text tables locale s

  unfoldable pub rejected_event : TraceEvent → ProcessEvent
  unfolding rejection_detail
  rejected_event e =
      let error =
        string_value (get (result_from e) "error") or_else string_value (payload_field e "error") in
      record (said (t "activity.title.invalidAction" []) (rejection_detail error)
        (activity_chips tables locale e t)) { output = output_preview tables locale e }

  step_event : TraceEvent → List Text → ProcessEvent
  unfolding counted
  step_event e chips =
      let detail = join (lit " · ") (
        keep non_empty (
          counted t "activity.stepNumber" "step" (number_value (payload_field e "step"))
          ∷ counted t "activity.modelCallCount" "count"
              (number_value (payload_field e "model_calls"))
          ∷ counted t "activity.toolCallCount" "count" (number_value (payload_field e "tool_calls"))
          ∷ [])) in
      said (t "activity.title.step" []) (or_text detail (t "activity.detail.runtime" [])) chips

  parsed_event : TraceEvent → List Text → ProcessEvent
  parsed_event e chips =
      let label = action_label t e in
      said
        (if name_in (action_name e) ("finish" ∷ [])
          then label
          else t "activity.title.nextAction" ((lit "action", label) ∷ []))
        (rationale_detail tables locale (string_value (get (action_from e) "rationale"))
          (action_detail t e) t)
        chips

  executed_event : TraceEvent → List Text → ProcessEvent
  executed_event e chips =
      let command = first_present (action_params e) ("command" ∷ "cmd" ∷ []) in
      let fallback =
        if is_some command then t "activity.detail.commandExecuted" [] else action_detail t e in
      record (said (executed_title t e)
        (rationale_detail tables locale (string_value (get (action_from e) "rationale")) fallback t)
        chips) { output = output_preview tables locale e; output_label = some (output_label t e) }

  failed_event : TraceEvent → List Text → ProcessEvent
  failed_event e chips =
      record (said (t "activity.work.failed" ((lit "action", action_label t e) ∷ []))
        (known_or (string_value (get (result_from e) "error")) (t "activity.detail.failed" []))
        chips) {
          output = output_preview tables locale e;
          output_label = some (t "activity.outputError" []);
        }

  requested_event : TraceEvent → List Text → ProcessEvent
  requested_event e chips =
      record (said
        (t
          (if name_in (action_name e) ("apply_patch" ∷ [])
            then "activity.title.patchApprovalRequested"
            else "activity.title.approvalRequested")
          [])
        (t "activity.detail.approvalRequested" []) chips) { change_set = activity_change_set t e }

  resolved_event : TraceEvent → List Text → ProcessEvent
  resolved_event e chips =
      let approved = name_in (string_value (payload_field e "decision")) ("approve_once" ∷ []) in
      said
        (t (if approved then "activity.title.approvalApproved" else "activity.title.approvalDenied")
          [])
        (known_or (string_value (payload_field e "reason")) (
          t
            (if approved
              then "activity.detail.approvalApproved"
              else "activity.detail.approvalDenied")
            []))
        chips

  -- A title and a detail of the tables.
  abbrev plain_event : String → String → List Text → ProcessEvent
  plain_event title detail chips = said (t title []) (t detail []) chips

  -- The ladder of names at the end of `processEvent`, where no error and no reason was found.
  unfoldable pub named_event : TraceEvent → List Text → ProcessEvent
  unfolding step_event parsed_event executed_event failed_event requested_event resolved_event
  named_event e chips =
      if text_eq e.event (lit "run.step.started")
      then step_event e chips
      else if text_eq e.event (lit "model.requested")
      then plain_event "activity.title.modelRequested" "activity.detail.modelRequested" chips
      else if text_eq e.event (lit "model.responded")
      then plain_event "activity.title.modelResponded" "activity.detail.modelResponded" chips
      else if text_eq e.event (lit "action.parsed")
      then parsed_event e chips
      else if text_eq e.event (lit "tool.executed")
      then executed_event e chips
      else if text_eq e.event (lit "tool.failed")
      then failed_event e chips
      else if text_eq e.event (lit "approval.requested")
      then requested_event e chips
      else if text_eq e.event (lit "approval.resolved")
      then resolved_event e chips
      else if text_eq e.event (lit "approval.cancelled")
      then plain_event "activity.title.approvalCancelled" "activity.detail.approvalCancelled" chips
      else if text_eq e.event (lit "completion.passed")
      then said (t "activity.title.completionPassed" [])
          (assessment_summary tables locale e (t "activity.detail.completionPassed" [])) chips
      else if text_eq e.event (lit "completion.rejected")
      then said (t "activity.title.completionRejected" [])
          (assessment_summary tables locale e (t "activity.detail.completionRejected" [])) chips
      else if text_eq e.event (lit "policy.evaluated")
      then said (t "activity.title.policyBlocked" [])
          (policy_summary tables locale e (t "activity.detail.policyBlocked" [])) chips
      else if starts_with e.event (lit "user.guidance.")
      then plain_event "activity.title.guidance" "activity.detail.guidance" chips
      else if starts_with e.event (lit "context.")
      then plain_event "activity.title.context" "activity.detail.context" chips
      else if starts_with e.event (lit "patch.")
      then plain_event "activity.title.patch" "activity.detail.patch" chips
      else if text_eq e.event (lit "capability.menu.built")
      then plain_event "activity.title.capabilities" "activity.detail.capabilities" chips
      else if text_eq e.event (lit "report.generated")
      then plain_event "activity.title.report" "activity.detail.report" chips
      else if text_eq e.event (lit "run.finished")
      then plain_event "activity.title.completed" "activity.detail.completed" chips
      else if text_eq e.event (lit "run.cancelled")
      then plain_event "activity.title.cancelled" "activity.detail.cancelled" chips
      else plain_event "activity.title.runtime" "activity.detail.system" chips

  -- The second test for "model.failed" of the source, in the ladder, is never reached with it.
  unfoldable pub process_event : TraceEvent → ProcessEvent
  unfolding ended_key rejected_event model_failed_event named_event
  process_event e =
      let chips = activity_chips tables locale e t in
      if text_eq e.event (lit "action.rejected")
      then rejected_event e
      else if text_eq e.event (lit "model.failed")
      then model_failed_event e
      else elim (full_text (payload_field e "error")) [
        | some error ↦
            said (t "activity.title.failed" []) (translate_known_text tables locale error) chips
        | none ↦ elim (full_text (payload_field e "termination_reason")) [
          | some reason ↦
              said (t (ended_key e.event) []) (translate_known_text tables locale reason) chips
          | none ↦ named_event e chips
        ]
      ]

  unfoldable pub work_item : TraceEvent → WorkItem
  unfolding process_event
  work_item e = record {
    process = process_event e;
    category = work_category e;
    kind = (work_presentation e).kind;
    phase = work_phase e;
    tone = (work_presentation e).tone;
    time = e.time;
  }

  unfoldable pub build_work_items : List TraceEvent → List WorkItem
  unfolding work_item
  build_work_items events = map work_item (shown events)
