-- ===== src/Run/Diagnosis.antt =====
-- frontend/src/run/completionDiagnosis.ts: why a run did not complete. A key of the translations is a
-- constructor, and the translator is an argument.
mod Agreement
mod Tests
use mini_agent_oscoder.Prelude.{
  ℕ, Bool, true, false, not, ◌&&◌, ◌||◌, Option, none, some, List, [], ◌∷◌, Text, lit, text_eq,
  starts_with, includes, includes_i, one_of, is_space, trim, to_lower, non_empty, any, keep, map,
  if◌then◌else◌, ◌==◌,
}

pub data LeadKey : Type 0 where
  invalid_action budget model runtime generic : LeadKey

pub data SummaryKey : Type 0 where
  cancelled budget action_ir model runtime tests evidence generic : SummaryKey

pub data ActionKey : Type 0 where
  review_trace start_follow_up narrow_task review_budget ask_plan simplify check_model : ActionKey
  retry_focused retry_boundary collect_evidence : ActionKey

pub record CompletionCheck : Type 0 where
  pub id : Text
  pub required : Bool
  pub passed : Bool

pub record FailureDiagnosisInput : Type 0 where
  pub status : Text
  pub termination_reason : Option Text
  pub observation_error : Text
  pub completion : Option (List CompletionCheck)
  pub tests_status : Option Text

pub record FailureDiagnosis : Type 0 where
  pub summary : SummaryKey
  pub actions : List ActionKey

-- The second alternative has no letters that the flag i could change.
unfoldable pub is_invalid_action_error : Text → Bool
is_invalid_action_error error =
    includes_i error (lit "unable to recognize")
    || includes error (lit "无法识别")
    || includes_i error (lit "action")

unfoldable pub is_transition_error : Text → Bool
is_transition_error error = includes_i error (lit "transition") || includes error (lit "阶段切换")

-- `terminationReason === "…"`, and `terminationReason?.startsWith("…")`
abbrev pub reason_is : Option Text → Text → Bool
reason_is none word = false
reason_is (some reason) word = text_eq reason word

abbrev pub reason_starts : Option Text → Text → Bool
reason_starts none prefix = false
reason_starts (some reason) prefix = starts_with reason prefix

unfoldable pub failure_lead_key : Option Text → Text → LeadKey
failure_lead_key reason observation_error =
    if reason_is reason (lit "invalid_action_ir") || is_invalid_action_error observation_error
    then LeadKey.invalid_action
    else if reason_starts reason (lit "max_")
    then LeadKey.budget
    else if reason_is reason (lit "model_error")
    then LeadKey.model
    else if reason_is reason (lit "worker_error")
    then LeadKey.runtime
    else LeadKey.generic

unfoldable pub failure_lead_message : (LeadKey → Text) → Option Text → Text → Text
unfolding failure_lead_key
failure_lead_message t reason observation_error = t (failure_lead_key reason observation_error)

-- `replace(/[\s-]+/g, "_")`; the flag says that the unit before was replaced.
collapse : Bool → Text → Text
collapse inside [] = []
collapse inside (c ∷ s) =
    let gap = is_space c || c == b'-' in
    let rest = collapse gap s in if gap then (if inside then rest else b'_' ∷ rest) else c ∷ rest

unfoldable pub is_tests_not_run : Option Text → Bool
unfolding collapse
is_tests_not_run none = true
is_tests_not_run (some status) =
    if non_empty status
    then one_of ("" ∷ "_" ∷ "not_run" ∷ "notrun" ∷ "未运行" ∷ "没有运行" ∷ "未执行" ∷ [])
        (collapse false (to_lower (trim status)))
    else true

-- The ids of the required checks that did not pass.
unfoldable pub failed_checks : Option (List CompletionCheck) → List Text
failed_checks none = []
failed_checks (some checks) =
    map (λ (c : CompletionCheck). c.id) (keep (λ c. c.required && not c.passed) checks)

abbrev diagnosis : SummaryKey → ActionKey → ActionKey → Option FailureDiagnosis
diagnosis summary first second = some (record { summary = summary; actions = first ∷ second ∷ [] })

-- The branches behind the budget, for a run that was not cancelled.
unfoldable pub diagnose_reason : FailureDiagnosisInput → Option FailureDiagnosis
diagnose_reason input =
    if reason_is input.termination_reason (lit "invalid_action_ir")
      || is_invalid_action_error input.observation_error
    then diagnosis SummaryKey.action_ir ActionKey.ask_plan ActionKey.simplify
    else if reason_is input.termination_reason (lit "model_error")
    then diagnosis SummaryKey.model ActionKey.check_model ActionKey.retry_focused
    else if reason_is input.termination_reason (lit "worker_error")
        || is_transition_error input.observation_error
    then diagnosis SummaryKey.runtime ActionKey.review_trace ActionKey.retry_boundary
    else elim (failed_checks input.completion) [
      | [] ↦ diagnosis SummaryKey.generic ActionKey.review_trace ActionKey.start_follow_up
      | id ∷ ids ↦
          diagnosis
            (if any (λ c. text_eq c (lit "tests_after_change")) (id ∷ ids)
                || reason_is input.tests_status (lit "Failed")
              then SummaryKey.tests
              else SummaryKey.evidence)
            ActionKey.collect_evidence ActionKey.start_follow_up
    ]

unfoldable pub build_failure_diagnosis : FailureDiagnosisInput → Option FailureDiagnosis
unfolding diagnose_reason
build_failure_diagnosis input =
    if text_eq input.status (lit "completed")
    then none
    else if text_eq input.status (lit "cancelled")
    then diagnosis SummaryKey.cancelled ActionKey.review_trace ActionKey.start_follow_up
    else if reason_starts input.termination_reason (lit "max_")
    then diagnosis SummaryKey.budget ActionKey.narrow_task ActionKey.review_budget
    else diagnose_reason input
