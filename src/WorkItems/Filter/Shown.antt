-- ===== src/WorkItems/Filter/Shown.antt =====
-- What the filter of `buildWorkItems` keeps and what it hides.
use Prim.Native.String.{String}
use mini_agent_oscoder.Prelude.{
  ℕ, suc, ◌≡◌, ◌∙◌, inl, inr, Bool, true, false, some, List, [], ◌∷◌, Text, lit, text_eq,
  text_eq_refl, one_of, among, arith, All, Any, here, there, Bool-cases,
}
use mini_agent_oscoder.Json.{TraceEvent}
use mini_agent_oscoder.WorkItems.{action_name, action_id_from, name_in}
use mini_agent_oscoder.WorkItems.Filter.{
  is_resolved_model_request, is_completing, id_in, completed_action_ids, is_open_action,
  is_process_event, shown_from, shown,
}

-- The two events belong to the same action, and the second one completes it.
pub record Completes (e c : TraceEvent) : Type 0 where
  pub id : Text
  pub completing : is_completing c ≡ true
  pub of_first : action_id_from e ≡ some id
  pub of_second : action_id_from c ≡ some id

-- An announced action, other than `finish`, that some event of the trace completes.
pub record IsCompleted (events : List TraceEvent) (e : TraceEvent) : Type 0 where
  pub parsed : e.event ≡ lit "action.parsed"
  pub not_finish : name_in (action_name e) ("finish" ∷ []) ≡ false
  pub completed : Any (Completes e) events

among-completed_action_ids :
    (e : TraceEvent) (events : List TraceEvent) {id : Text}
    → action_id_from e ≡ some id
    → Any (Completes e) events
    → among (completed_action_ids events) id ≡ true
unfolding completed_action_ids
among-completed_action_ids e [] p a = elim a [ ]
among-completed_action_ids e (c ∷ events) {id} p (here k) =
    ground (arith, text_eq_refl id, k.completing, k.of_second, k.of_first)
among-completed_action_ids e (c ∷ events) {id} p (there a) =
    ground (arith, among-completed_action_ids e events p a)

is_process_event-parsed :
    (e : TraceEvent) (ids : List Text)
    → e.event ≡ lit "action.parsed"
    → is_process_event e ids ≡ is_open_action e ids
unfolding is_process_event text_eq lit
is_process_event-parsed e ids p = simp p

id_of_completed :
    (e : TraceEvent) (events : List TraceEvent)
    → Any (Completes e) events
    → (id : Text) × (action_id_from e ≡ some id)
id_of_completed e [] a = elim a [ ]
id_of_completed e (c ∷ events) (here k) = (k.id, k.of_first)
id_of_completed e (c ∷ events) (there a) = id_of_completed e events a

closed :
    (e : TraceEvent) (ids : List Text) (id : Text)
    → name_in (action_name e) ("finish" ∷ []) ≡ false
    → action_id_from e ≡ some id
    → among ids id ≡ true
    → is_open_action e ids ≡ false
unfolding is_open_action
closed e ids id f p h = rw (f, p, id_in) (ground arith)

not_open :
    (events : List TraceEvent) (e : TraceEvent)
    → IsCompleted events e
    → is_process_event e (completed_action_ids events) ≡ false
not_open events e c =
    let (id, p) = id_of_completed e events c.completed in
    is_process_event-parsed e _ c.parsed
    ∙ closed e _ id c.not_finish p (among-completed_action_ids e events p c.completed)

shown_from-not-IsCompleted :
    (events : List TraceEvent) (index : ℕ) (rest : List TraceEvent)
    → All (λ e. ¬ IsCompleted events e) (shown_from events index rest)
unfolding shown_from
shown_from-not-IsCompleted events index [] = tt
shown_from-not-IsCompleted events index (e ∷ rest) =
    elim (Bool-cases (is_process_event e (completed_action_ids events))) [
      | inl p ↦ elim (Bool-cases (is_resolved_model_request events index)) [
        | inl r ↦ rw (p, r) (shown_from-not-IsCompleted events (suc index) rest)
        | inr r ↦
            rw (p, r)
              ((λ c. cc (not_open events e c)), shown_from-not-IsCompleted events (suc index) rest)
      ]
      | inr p ↦ rw p (shown_from-not-IsCompleted events (suc index) rest)
    ]

-- The feed shows no announced action that an event anywhere in the trace completes, but for `finish`.
pub shown-not-IsCompleted :
    (events : List TraceEvent) → All (λ e. ¬ IsCompleted events e) (shown events)
unfolding shown
shown-not-IsCompleted events = shown_from-not-IsCompleted events 0 events

-- Results, approvals, rejections, verdicts, ends of runs and reports.
abbrev pub outcome_names : List String
outcome_names =
    "tool.executed" ∷ "tool.failed" ∷ "approval.requested" ∷ "approval.resolved"
    ∷ "approval.cancelled" ∷ "action.rejected" ∷ "completion.passed" ∷ "completion.rejected"
    ∷ "model.failed" ∷ "run.failed" ∷ "run.budget_exceeded" ∷ "run.cancelled" ∷ "report.generated"
    ∷ []

pub is_outcome : TraceEvent → Bool
is_outcome e = one_of outcome_names e.event
