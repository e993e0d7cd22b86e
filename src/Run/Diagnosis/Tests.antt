-- ===== src/Run/Diagnosis/Tests.antt =====
-- Runs of the diagnosis, and its theorems at concrete failures.
use mini_agent_oscoder.Prelude.{
  ◌≡◌, refl, true, false, none, some, [], ◌∷◌, Text, lit, text_eq, is_space, trim, to_lower,
}
use mini_agent_oscoder.Run.Diagnosis.{FailureDiagnosisInput, is_tests_not_run}

abbrev failed_with : Text → Text → FailureDiagnosisInput
failed_with reason error = record {
  status = lit "failed";
  termination_reason = some reason;
  observation_error = error;
  completion = some (record { id = lit "lint"; required = true; passed = true } ∷ []);
  tests_status = none;
}

not_run_tests :
    (is_tests_not_run (some (lit " Not - Run ")) ≡ true)
    × (is_tests_not_run (some (lit "Passed")) ≡ false)
unfolding is_tests_not_run to_lower trim is_space text_eq lit
not_run_tests = (refl, refl)
