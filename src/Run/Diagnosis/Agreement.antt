-- ===== src/Run/Diagnosis/Agreement.antt =====
-- The lead message and the diagnosis of one failed run, side by side.
use mini_agent_oscoder.Prelude.{
  ◌≡◌, ◌≢◌, ◌↔◌, true, false, Option, none, some, [], lit, text_eq, arith,
}
use mini_agent_oscoder.Run.Diagnosis.{
  LeadKey, SummaryKey, FailureDiagnosisInput, FailureDiagnosis, is_invalid_action_error,
  reason_starts, failure_lead_key, failed_checks, build_failure_diagnosis,
}

-- The summary of a diagnosis, if there is one.
abbrev pub summary_of : Option FailureDiagnosis → Option SummaryKey
summary_of none = none
summary_of (some d) = some d.summary

-- There is a diagnosis exactly for the runs that did not complete.
pub build_failure_diagnosis-none_iff :
    (input : FailureDiagnosisInput)
    → (build_failure_diagnosis input ≡ none) ↔ (text_eq input.status (lit "completed") ≡ true)
unfolding build_failure_diagnosis
build_failure_diagnosis-none_iff input = ground arith

-- A run that failed, with a reason that is no exhausted budget: the lead blames an invalid action, or
-- the model, exactly when the diagnosis does.
pub lead-diagnosis_agree :
    (input : FailureDiagnosisInput)
    → text_eq input.status (lit "completed") ≡ false
    → text_eq input.status (lit "cancelled") ≡ false
    → reason_starts input.termination_reason (lit "max_") ≡ false
    → ((failure_lead_key input.termination_reason input.observation_error ≡ LeadKey.invalid_action)
        ↔ (summary_of (build_failure_diagnosis input) ≡ some SummaryKey.action_ir))
      × ((failure_lead_key input.termination_reason input.observation_error ≡ LeadKey.model)
          ↔ (summary_of (build_failure_diagnosis input) ≡ some SummaryKey.model))
unfolding build_failure_diagnosis failure_lead_key
lead-diagnosis_agree input h k b = ground arith

-- A failed run whose budget is exhausted, and whose last error mentions an action: the lead blames an
-- invalid action, and the diagnosis the budget.
pub lead-diagnosis_differ :
    (input : FailureDiagnosisInput)
    → text_eq input.status (lit "completed") ≡ false
    → text_eq input.status (lit "cancelled") ≡ false
    → reason_starts input.termination_reason (lit "max_") ≡ true
    → is_invalid_action_error input.observation_error ≡ true
    → (failure_lead_key input.termination_reason input.observation_error ≡ LeadKey.invalid_action)
      × (summary_of (build_failure_diagnosis input) ≡ some SummaryKey.budget)
unfolding build_failure_diagnosis failure_lead_key
lead-diagnosis_differ input h k b a = ground arith

-- Tests and evidence are blamed only where a required check did not pass.
pub blamed_checks :
    (input : FailureDiagnosisInput)
    → failed_checks input.completion ≡ []
    → (summary_of (build_failure_diagnosis input) ≢ some SummaryKey.tests)
      × (summary_of (build_failure_diagnosis input) ≢ some SummaryKey.evidence)
unfolding build_failure_diagnosis
blamed_checks input h = ground arith
