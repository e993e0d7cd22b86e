-- ===== src/Session/Subscription.antt =====
-- frontend/src/run/useRunSubscription.ts: what an event of the open stream does, and what an answer
-- of the daemon does when it comes.
pub mod Events
pub mod Stream
pub mod Requests
use mini_agent_oscoder.Prelude.{
  ◌≡◌, Bool, true, false, ◌&&◌, ◌||◌, Option, none, some, List, [], ◌∷◌, ◌++◌, Text, lit, text_eq,
  starts_with, one_of, if◌then◌else◌, or_default,
}
use mini_agent_oscoder.Json.{Value, str, end, TraceEvent}
use mini_agent_oscoder.WorkItems.{payload_field}
use mini_agent_oscoder.Run.Helpers.{is_approval_request, is_evidence_event}
use mini_agent_oscoder.Session.{
  PanelTarget, Resource, Pending, RunSubscription, fetch, terminal_load, project_runs, RunSummary,
  RunResources, Session, request, request_runs, stop_run_stream,
}

abbrev when : Bool → (Session → Session) → Session → Session
when true f s = f s
when false f s = s

unfoldable pub refresh_event_resources : Text → TraceEvent → Session → Session
refresh_event_resources run e s0 =
    let s1 =
      when
        (one_of
          ("checkpoint.saved" ∷ "patch.snapshot.created" ∷ "repair.started" ∷ "repair.completed"
            ∷ [])
          e.event)
        (request (fetch run Resource.recovery)) s0 in
    let s2 =
      when (text_eq e.event (lit "report.generated")) (request (fetch run Resource.report)) s1 in
    let s3 =
      when (starts_with e.event (lit "context.")) (request (fetch run Resource.context_pack)) s2 in
    let s4 = when (starts_with e.event (lit "memory.")) (request (fetch run Resource.memory)) s3 in
    let s5 =
      when
        (one_of
          ("policy.evaluated" ∷ "sandbox.started" ∷ "sandbox.finished" ∷ "governance.updated" ∷ [])
          e.event)
        (request (fetch run Resource.governance)) s4 in
    let s6 =
      when (one_of ("policy.evaluated" ∷ "tool.executed" ∷ "tool.failed" ∷ []) e.event)
        (request (fetch run Resource.artifacts)) s5 in
    let s7 =
      when
        (text_eq e.event (lit "extension.updated")
          || starts_with e.event (lit "skill.")
          || starts_with e.event (lit "mcp.")
          || starts_with e.event (lit "hook."))
        (request (fetch run Resource.extensions)) s6 in
    when (is_evidence_event e.event) (request (fetch run Resource.evidence)) s7

-- `onGovernanceApproval`
on_governance_approval : Session → Session
on_governance_approval s = record s {
  runtime_panel_target = PanelTarget.governance;
  runtime_details_open = true;
}

-- The first statement after the event is appended: a request for approval opens, an answer closes.
unfoldable pub apply_approval : TraceEvent → Session → Session
unfolding on_governance_approval
apply_approval e s =
    if text_eq e.event (lit "approval.requested")
      && is_approval_request (payload_field e "approval")
    then on_governance_approval
        (record s { approval = payload_field e "approval"; run_status = lit "waiting_approval" })
    else if one_of ("approval.resolved" ∷ "approval.cancelled" ∷ []) e.event
    then record s { approval = none }
    else s

abbrev pub is_transition : TraceEvent → Bool
is_transition e = text_eq e.event (lit "run.transitioned")

abbrev pub is_terminal : Text → Bool
is_terminal = one_of ("completed" ∷ "failed" ∷ "cancelled" ∷ [])

-- `typeof value === "string"` with the text.
abbrev pub text_of : Option Value → Option Text
text_of (some (str t)) = some t
text_of _ = none

-- `onProjectRunsRefresh` of a subscription.
abbrev pub refresh_runs_of : RunSubscription → Session → Session
refresh_runs_of subscription s = request_runs subscription.project s

apply_status : RunSubscription → Bool → Option Text → Session → Session
apply_status subscription true (some status) s =
    refresh_runs_of subscription
      (request (fetch subscription.run Resource.artifacts) (record s { run_status = status }))
apply_status subscription _ _ s = s

apply_budget : Bool → Option Text → Session → Session
apply_budget true (some reason) s = record s { termination_reason = reason }
apply_budget _ _ s = s

finish_stream : RunSubscription → Bool → Option Text → Session → Session
finish_stream subscription true (some status) s =
    if is_terminal status then request (terminal_load subscription) (stop_run_stream s) else s
finish_stream subscription _ _ s = s

unfoldable pub handle_run_event : RunSubscription → TraceEvent → Session → Session
unfolding apply_status apply_budget finish_stream
handle_run_event subscription e s0 =
    let s1 = record s0 { trace_events = s0.trace_events ++ e ∷ [] } in
    let s2 = apply_approval e s1 in
    let s3 = refresh_event_resources subscription.run e s2 in
    let status = text_of (payload_field e "status") in
    let s4 = apply_status subscription (is_transition e) status s3 in
    let s5 =
      apply_budget (text_eq e.event (lit "run.budget_exceeded"))
        (text_of (payload_field e "termination_reason")) s4 in
    finish_stream subscription (is_transition e) status s5

unfoldable pub apply_terminal_run_state : RunSummary → RunResources → Session → Session
apply_terminal_run_state summary resources s = record s {
  run_status = summary.status;
  final_message = or_default summary.final_message [];
  termination_reason = or_default summary.termination_reason [];
  last_observation = or_default summary.last_observation end;
  completion = summary.completion;
  artifacts = some resources.artifacts;
  recovery = some resources.recovery;
  report = some resources.report;
  evidence = some resources.evidence;
  context_pack = some resources.context;
  memory = some resources.memory;
  governance = some resources.governance;
  extensions = some resources.extensions;
  conversation = some resources.conversation;
}

-- The setter that a request's `then` names.
unfoldable pub set_resource : Resource → Value → Session → Session
set_resource Resource.artifacts v s = record s { artifacts = some v }
set_resource Resource.recovery v s = record s { recovery = some v }
set_resource Resource.report v s = record s { report = some v }
set_resource Resource.evidence v s = record s { evidence = some v }
set_resource Resource.context_pack v s = record s { context_pack = some v }
set_resource Resource.memory v s = record s { memory = some v }
set_resource Resource.governance v s = record s { governance = some v }
set_resource Resource.extensions v s = record s { extensions = some v }

-- The answer of the daemon to a request; every request that fails is caught and changes nothing.
pub data Answer : Pending → Type 0 where
  value : (run : Text) (r : Resource) → Value → Answer (fetch run r)
  loaded :
      (subscription : RunSubscription)
      → RunSummary
      → RunResources
      → Answer (terminal_load subscription)
  runs : (project : Text) → Value → Answer (project_runs project)
  failed : (p : Pending) → Answer p

unfoldable pub settle : {p : Pending} → Answer p → Session → Session
unfolding set_resource apply_terminal_run_state
settle (value run r v) s = set_resource r v s
settle (loaded subscription summary resources) s =
    refresh_runs_of subscription (apply_terminal_run_state summary resources s)
settle (runs project v) s = record s { recent_runs = some v }
settle (failed p) s = s

-- What can happen between two actions of the user: the open stream delivers an event or breaks, or
-- one of the pending requests, in any order, is answered.
pub data Step (disconnected : Text) : Session → Session → Type 0 where
  event :
      {s : Session} (subscription : RunSubscription) (e : TraceEvent)
      → s.stream ≡ some subscription
      → Step disconnected s (handle_run_event subscription e s)
  stream_error :
      {s : Session} (subscription : RunSubscription)
      → s.stream ≡ some subscription
      → Step disconnected s (record s { error = some disconnected })
  answer :
      {s : Session} (before after : List Pending) {p : Pending} (a : Answer p)
      → s.pending ≡ before ++ p ∷ after
      → Step disconnected s (settle a (record s { pending = before ++ after }))
