-- ===== src/Session/Subscription/Events.antt =====
-- What one event of the stream changes.
use mini_agent_oscoder.Prelude.{
  ◌≡◌, refl, sym, ap, Bool, true, false, ◌||◌, Option, none, some, List, [], ◌∷◌, ◌++◌, append-nil,
  append_assoc, Text, lit, text_eq, text_eq_refl, starts_with, one_of, arith, if◌then◌else◌,
}
use mini_agent_oscoder.Json.{Value, TraceEvent}
use mini_agent_oscoder.WorkItems.{payload_field}
use mini_agent_oscoder.Run.Helpers.{is_approval_request, is_evidence_event}
use mini_agent_oscoder.Session.{
  PanelTarget, Resource, Pending, RunSubscription, fetch, Session, request, request_runs,
  stop_run_stream,
}
use mini_agent_oscoder.Session.Subscription.{
  when, refresh_event_resources, apply_approval, apply_status, apply_budget, is_transition,
  is_terminal, text_of, handle_run_event,
}

-- One request, if the test holds.
abbrev pub asked : Bool → Pending → List Pending
asked true p = p ∷ []
asked false p = []

when-request :
    (b : Bool) (p : Pending) (s : Session)
    → when b (request p) s ≡ record s { pending = s.pending ++ asked b p }
when-request true p s = refl
when-request false p s =
    ap (λ (l : List Pending). record s { pending = l }) (sym (append-nil s.pending))

-- What an event asks for by its name, each with its test, in the order in which the requests go out.
abbrev pub tests_of : Text → List (Bool × Resource)
tests_of name =
    (
      one_of
          ("checkpoint.saved" ∷ "patch.snapshot.created" ∷ "repair.started" ∷ "repair.completed"
            ∷ [])
          name,
      Resource.recovery,
    )
    ∷ (text_eq name (lit "report.generated"), Resource.report)
    ∷ (starts_with name (lit "context."), Resource.context_pack)
    ∷ (starts_with name (lit "memory."), Resource.memory)
    ∷ (
      one_of
          ("policy.evaluated" ∷ "sandbox.started" ∷ "sandbox.finished" ∷ "governance.updated" ∷ [])
          name,
      Resource.governance,
    )
    ∷ (one_of ("policy.evaluated" ∷ "tool.executed" ∷ "tool.failed" ∷ []) name, Resource.artifacts)
    ∷ (
      text_eq name (lit "extension.updated")
          || starts_with name (lit "skill.")
          || starts_with name (lit "mcp.")
          || starts_with name (lit "hook."),
      Resource.extensions,
    )
    ∷ (is_evidence_event name, Resource.evidence)
    ∷ []

abbrev pub fetches : Text → List (Bool × Resource) → List Pending
fetches run [] = []
fetches run ((b, r) ∷ tests) = asked b (fetch run r) ++ fetches run tests

unfoldable pub refreshes : Text → Text → List Pending
refreshes run name = fetches run (tests_of name)

pub refresh_event_resources_lem :
    (run : Text) (e : TraceEvent) (s : Session)
    → refresh_event_resources run e s ≡ record s { pending = s.pending ++ refreshes run e.event }
unfolding refresh_event_resources refreshes
refresh_event_resources_lem run e s = simp (when-request, append_assoc, append-nil)

-- What all the parts of the handler leave alone, but for the first and the last statement.
record Keeps (s t : Session) : Type 0 where
  run_id : t.run_id ≡ s.run_id
  trace_events : t.trace_events ≡ s.trace_events
  stream : t.stream ≡ s.stream

apply_approval-Keeps : (e : TraceEvent) (s : Session) → Keeps s (apply_approval e s)
unfolding apply_approval
apply_approval-Keeps e s = ground arith

refresh-Keeps :
    (run : Text) (e : TraceEvent) (s : Session) → Keeps s (refresh_event_resources run e s)
refresh-Keeps run e s = rw (refresh_event_resources_lem run e s) (ground arith)

apply_status-Keeps :
    (subscription : RunSubscription) (b : Bool) (o : Option Text) (s : Session)
    → Keeps s (apply_status subscription b o s)
unfolding apply_status request_runs
apply_status-Keeps subscription b o s = ground arith

apply_budget-Keeps : (b : Bool) (o : Option Text) (s : Session) → Keeps s (apply_budget b o s)
unfolding apply_budget
apply_budget-Keeps b o s = ground arith

-- The status to which an event moves the run, if it is a transition that names one.
unfoldable pub moved_to : TraceEvent → Option Text
moved_to e = if is_transition e then text_of (payload_field e "status") else none

-- The event moves the run to a status in which it has ended.
abbrev pub ends : Option Text → Bool
ends none = false
ends (some status) = is_terminal status

-- An event is appended to the trace, whatever else it does; it never changes which run is open, and
-- it closes the stream exactly when it moves the run to an end.
pub handle_run_event-stream :
    (subscription : RunSubscription) (e : TraceEvent) (s : Session)
    → ((handle_run_event subscription e s).run_id ≡ s.run_id)
      × ((handle_run_event subscription e s).trace_events ≡ s.trace_events ++ e ∷ [])
      × ((handle_run_event subscription e s).stream
          ≡ (if ends (moved_to e) then none else s.stream))
unfolding handle_run_event moved_to stop_run_stream
handle_run_event-stream subscription e s =
    let s1 = record s { trace_events = s.trace_events ++ e ∷ [] } in
    let s2 = apply_approval e s1 in
    let s3 = refresh_event_resources subscription.run e s2 in
    let status = text_of (payload_field e "status") in
    let s4 = apply_status subscription (is_transition e) status s3 in
    ground (
      arith,
      apply_approval-Keeps e s1,
      refresh-Keeps subscription.run e s2,
      apply_status-Keeps subscription (is_transition e) status s3,
      apply_budget-Keeps (text_eq e.event (lit "run.budget_exceeded"))
          (text_of (payload_field e "termination_reason")) s4,
    )

not_transition : (e : TraceEvent) → e.event ≡ lit "approval.requested" → is_transition e ≡ false
unfolding text_eq lit
not_transition e h = simp h

not_budget :
    (e : TraceEvent)
    → e.event ≡ lit "approval.requested"
    → text_eq e.event (lit "run.budget_exceeded") ≡ false
unfolding text_eq lit
not_budget e h = simp h

-- What a request for approval changes in the view.
pub record Asks (s : Session) (approval : Option Value) : Type 0 where
  pub approval_kept : s.approval ≡ approval
  pub status : s.run_status ≡ lit "waiting_approval"
  pub opened : s.runtime_details_open ≡ true
  pub panel : s.runtime_panel_target ≡ PanelTarget.governance

apply_approval-Asks :
    (e : TraceEvent) (s : Session)
    → text_eq e.event (lit "approval.requested") ≡ true
    → is_approval_request (payload_field e "approval") ≡ true
    → Asks (apply_approval e s) (payload_field e "approval")
unfolding apply_approval
apply_approval-Asks e s h v = ground arith

-- An event that carries a valid request for approval leaves the session waiting for the user, with
-- that request kept and the governance panel open.
pub handle_run_event-Asks :
    (subscription : RunSubscription) (e : TraceEvent) (s : Session)
    → e.event ≡ lit "approval.requested"
    → is_approval_request (payload_field e "approval") ≡ true
    → Asks (handle_run_event subscription e s) (payload_field e "approval")
unfolding handle_run_event
handle_run_event-Asks subscription e s h v =
    let s1 = record s { trace_events = s.trace_events ++ e ∷ [] } in
    let s2 = apply_approval e s1 in
    ground (
      arith,
      apply_approval-Asks e s1 (rw h (text_eq_refl _)) v,
      refresh_event_resources_lem subscription.run e s2,
      not_transition e h,
      not_budget e h,
    )
