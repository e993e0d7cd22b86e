-- ===== src/WorkItems/Present/Failures.antt =====
-- How failures are shown.
use mini_agent_oscoder.Prelude.{
  ◌≡◌, refl, Bool, true, false, ◌||◌, Text, lit, text_eq, text_eq-eq-false, includes, arith,
}
use mini_agent_oscoder.Json.{TraceEvent}
use mini_agent_oscoder.WorkItems.{WorkItemKind}
use mini_agent_oscoder.WorkItems.Present.{work_presentation}

-- The name of an event that reports a failure or an exhausted budget.
abbrev pub says_failure : Text → Bool
says_failure event = includes event (lit "failed") || includes event (lit "exceeded")

failure_other :
    (event w : Text) → says_failure event ≡ true → says_failure w ≡ false → text_eq event w ≡ false
failure_other event w h k = text_eq-eq-false says_failure event w h k

quiet :
    (says_failure (lit "approval.requested") ≡ false)
    × (says_failure (lit "approval.resolved") ≡ false)
    × (says_failure (lit "approval.cancelled") ≡ false)
    × (says_failure (lit "completion.passed") ≡ false)
    × (says_failure (lit "completion.rejected") ≡ false)
    × (says_failure (lit "policy.evaluated") ≡ false)
    × (says_failure (lit "action.rejected") ≡ false)
unfolding includes lit
quiet = (refl, refl, refl, refl, refl, refl, refl)

-- An event whose name speaks of a failure or an exceeded limit is shown as danger, whatever its
-- payload says about the action.
pub work_presentation-failure :
    (e : TraceEvent)
    → says_failure e.event ≡ true
    → work_presentation e ≡ record { kind = WorkItemKind.danger; tone = lit "danger" }
unfolding work_presentation
work_presentation-failure e h = ground (
  arith,
  failure_other e.event (lit "approval.requested") h quiet.0,
  failure_other e.event (lit "approval.resolved") h quiet.1,
  failure_other e.event (lit "approval.cancelled") h quiet.2,
  failure_other e.event (lit "completion.passed") h quiet.3,
  failure_other e.event (lit "completion.rejected") h quiet.4,
  failure_other e.event (lit "policy.evaluated") h quiet.5,
  failure_other e.event (lit "action.rejected") h quiet.6,
)
