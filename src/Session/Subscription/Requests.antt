-- ===== src/Session/Subscription/Requests.antt =====
-- Whose requests are pending while the workbench follows a run (frontend/src/run/useRunSubscription.ts
-- and loadProjectRuns of frontend/src/pages/Workbench.tsx).
use mini_agent_oscoder.Prelude.{
  ◌≡◌, refl, sym, ap, inl, inr, ◌⊎◌, Bool, true, false, Bool-cases, Option, none, some, List, [],
  ◌∷◌, ◌++◌, Text, non_empty, arith, All, All-append,
}
use mini_agent_oscoder.Json.{TraceEvent}
use mini_agent_oscoder.WorkItems.{payload_field}
use mini_agent_oscoder.Session.{
  Resource, Pending, RunSubscription, fetch, terminal_load, project_runs, Session, request,
  request_runs, stop_run_stream,
}
use mini_agent_oscoder.Session.Subscription.{
  refresh_event_resources, apply_approval, apply_status, apply_budget, finish_stream, is_transition,
  is_terminal, text_of, handle_run_event, settle, apply_terminal_run_state, Answer, value, loaded,
  runs, failed, Step, event, stream_error, answer,
}
use mini_agent_oscoder.Session.Subscription.Events.{
  asked, fetches, tests_of, refreshes, refresh_event_resources_lem, handle_run_event-stream, ends,
  moved_to,
}
use mini_agent_oscoder.Session.Subscription.Stream.{
  Reach, here, next, set_resource-pending, apply_terminal_run_state-pending, settle-stream,
}

-- A request for the run of a subscription, or for the runs of the project that it keeps.
abbrev pub BelongsTo : RunSubscription → Pending → Type 0
BelongsTo subscription (fetch run r) = run ≡ subscription.run
BelongsTo subscription (terminal_load other) = other ≡ subscription
BelongsTo subscription (project_runs project) =
    (subscription.project ≡ some project) × (non_empty project ≡ true)

abbrev pub AllBelong : RunSubscription → List Pending → Type 0
AllBelong subscription ps = All (BelongsTo subscription) ps

-- No stream is open but that of the subscription, and all that is pending belongs to it.
pub record Follows (subscription : RunSubscription) (s : Session) : Type 0 where
  pub stream : (s.stream ≡ none) ⊎ (s.stream ≡ some subscription)
  pub pending : AllBelong subscription s.pending

module _ (subscription : RunSubscription) where
  both :
      (ps qs : List Pending)
      → AllBelong subscription ps
      → AllBelong subscription qs
      → AllBelong subscription (ps ++ qs)
  both = All-append (BelongsTo subscription)

  without :
      (before after : List Pending) (p : Pending)
      → AllBelong subscription (before ++ p ∷ after)
      → AllBelong subscription (before ++ after) × BelongsTo subscription p
  without [] after p h = (h.1, h.0)
  without (q ∷ before) after p h =
      let (rest, own) = without before after p h.1 in ((h.0, rest), own)

  asked-belongs :
      (b : Bool) (p : Pending) → BelongsTo subscription p → AllBelong subscription (asked b p)
  asked-belongs true p h = (h, tt)
  asked-belongs false p h = tt

  fetches-belong :
      (tests : List (Bool × Resource)) → AllBelong subscription (fetches subscription.run tests)
  fetches-belong [] = tt
  fetches-belong ((b, r) ∷ tests) =
      let p = fetch subscription.run r in
      both (asked b p) (fetches subscription.run tests) (asked-belongs b p refl)
        (fetches-belong tests)

  refreshes-belong : (name : Text) → AllBelong subscription (refreshes subscription.run name)
  unfolding refreshes
  refreshes-belong name = fetches-belong (tests_of name)

  request-belongs :
      (p : Pending) (s : Session)
      → AllBelong subscription s.pending
      → BelongsTo subscription p
      → AllBelong subscription (request p s).pending
  request-belongs p s h k = both s.pending (p ∷ []) h (k, tt)

  request_runs-belongs :
      (project : Option Text) (s : Session)
      → subscription.project ≡ project
      → AllBelong subscription s.pending
      → AllBelong subscription (request_runs project s).pending
  unfolding request_runs
  request_runs-belongs none s e h = h
  request_runs-belongs (some project) s e h = elim (Bool-cases (non_empty project)) [
    | inl f ↦ rw (request_runs, f) (request-belongs (project_runs project) s h (e, f))
    | inr f ↦ rw (request_runs, f) h
  ]

  apply_status-belongs :
      (b : Bool) (o : Option Text) (s : Session)
      → AllBelong subscription s.pending
      → AllBelong subscription (apply_status subscription b o s).pending
  unfolding apply_status
  apply_status-belongs true none s h = h
  apply_status-belongs false o s h = h
  apply_status-belongs true (some status) s h = request_runs-belongs subscription.project _ refl (
      request-belongs (fetch subscription.run Resource.artifacts) (record s { run_status = status })
        h refl)

  finish_stream-belongs :
      (b : Bool) (o : Option Text) (s : Session)
      → AllBelong subscription s.pending
      → AllBelong subscription (finish_stream subscription b o s).pending
  unfolding finish_stream stop_run_stream
  finish_stream-belongs true none s h = h
  finish_stream-belongs false o s h = h
  finish_stream-belongs true (some status) s h = elim (Bool-cases (is_terminal status)) [
    | inl t ↦ rw t (request-belongs (terminal_load subscription) (stop_run_stream s) h refl)
    | inr t ↦ rw t h
  ]

  apply_approval-pending : (e : TraceEvent) (s : Session) → (apply_approval e s).pending ≡ s.pending
  unfolding apply_approval
  apply_approval-pending e s = ground arith

  apply_budget-pending :
      (b : Bool) (o : Option Text) (s : Session) → (apply_budget b o s).pending ≡ s.pending
  unfolding apply_budget
  apply_budget-pending b o s = ground arith

  handle_run_event-belongs :
      (e : TraceEvent) (s : Session)
      → AllBelong subscription s.pending
      → AllBelong subscription (handle_run_event subscription e s).pending
  unfolding handle_run_event
  handle_run_event-belongs e s h =
      let s1 = record s { trace_events = s.trace_events ++ e ∷ [] } in
      let s2 = apply_approval e s1 in
      let s3 = refresh_event_resources subscription.run e s2 in
      let status = text_of (payload_field e "status") in
      let s4 = apply_status subscription (is_transition e) status s3 in
      let h2 : AllBelong subscription s2.pending = rw (apply_approval-pending e s1) h in
      let h3 : AllBelong subscription s3.pending =
        rw (refresh_event_resources_lem subscription.run e s2)
          (both s2.pending (refreshes subscription.run e.event) h2 (refreshes-belong e.event)) in
      let h4 = apply_status-belongs (is_transition e) status s3 h3 in
      finish_stream-belongs (is_transition e) status _ (rw (apply_budget-pending _ _ s4) h4)

  settle-belongs :
      {p : Pending} (a : Answer p) (s : Session)
      → BelongsTo subscription p
      → AllBelong subscription s.pending
      → AllBelong subscription (settle a s).pending
  unfolding settle
  settle-belongs (value run r v) s own h = rw (set_resource-pending r v s) h
  settle-belongs (loaded other summary resources) s own h =
      request_runs-belongs other.project (apply_terminal_run_state summary resources s)
        (ap (λ x. x.project) (sym own))
        (rw (apply_terminal_run_state-pending summary resources s) h)
  settle-belongs (runs project v) s own h = h
  settle-belongs (failed p) s own h = h

  handle_run_event-Follows :
      (e : TraceEvent) (s : Session)
      → Follows subscription s
      → Follows subscription (handle_run_event subscription e s)
  handle_run_event-Follows e s h = record {
    stream = elim (Bool-cases (ends (moved_to e))) [
      | inl b ↦ inl (rw ((handle_run_event-stream subscription e s).2, b) refl)
      | inr b ↦ rw ((handle_run_event-stream subscription e s).2, b) h.stream
    ];
    pending = handle_run_event-belongs e s h.pending;
  }

  Step-Follows :
      {msg : Text} {s t : Session} → Follows subscription s → Step msg s t → Follows subscription t
  Step-Follows {s = s} h (event other e open_stream) = elim h.stream [
    | inl closed ↦ cc
    | inr same ↦ let q : other ≡ subscription = cc in rw q (handle_run_event-Follows e s h)
  ]
  Step-Follows h (stream_error other _) = record { stream = h.stream; pending = h.pending }
  Step-Follows {s = s} h (answer before after {p} a split) =
      let rest = record s { pending = before ++ after } in
      let (left, own) = without before after p (rw (← split) h.pending) in
      record {
        stream = rw (settle-stream a rest) h.stream;
        pending = settle-belongs a rest own left;
      }

-- From a state in which no stream is open but that of one subscription, and all pending requests belong
-- to it: whatever the stream brings and in whichever order the requests are answered, every request that
-- comes to be pending is for the run of the subscription, or for the runs of the project that it keeps,
-- if it keeps one that is not empty; and no other stream is open.
pub Reach-Follows :
    {msg : Text} {s t : Session} (subscription : RunSubscription)
    → Follows subscription s
    → Reach msg s t
    → Follows subscription t
Reach-Follows subscription h here = h
Reach-Follows subscription h (next r st) =
    Step-Follows subscription (Reach-Follows subscription h r) st
