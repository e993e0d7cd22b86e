-- ===== src/Session/Subscription/Stream.antt =====
-- Sequences of steps: what holds while the stream is open, and that a session comes to rest once
-- it is closed.
use mini_agent_oscoder.Prelude.{
  ℕ, suc, ◌+◌, ◌≤◌, ◌≡◌, refl, sym, ◌∙◌, ap, Option, none, some, List, [], ◌∷◌, ◌++◌, append-nil,
  append_assoc, Text, arith,
}
use mini_agent_oscoder.Json.{Value, TraceEvent}
use mini_agent_oscoder.Session.{
  Resource, Pending, fetch, terminal_load, project_runs, RunSummary, RunResources, Session,
  request_runs,
}
use mini_agent_oscoder.Session.Subscription.{
  settle, set_resource, apply_terminal_run_state, Answer, value, loaded, runs, failed, Step, event,
  stream_error, answer,
}
use mini_agent_oscoder.Session.Subscription.Events.{handle_run_event-stream}

pub data Reach (disconnected : Text) (s : Session) : Session → Type 0 where
  here : Reach disconnected s s
  next : {t u : Session} → Reach disconnected s t → Step disconnected t u → Reach disconnected s u

settle-run_id : {p : Pending} (a : Answer p) (s : Session) → (settle a s).run_id ≡ s.run_id
unfolding settle request_runs
settle-run_id (value run r v) s = ground arith
settle-run_id (loaded subscription summary resources) s = ground arith
settle-run_id (runs project v) s = refl
settle-run_id (failed p) s = refl

settle-trace_events :
    {p : Pending} (a : Answer p) (s : Session) → (settle a s).trace_events ≡ s.trace_events
unfolding settle request_runs
settle-trace_events (value run r v) s = ground arith
settle-trace_events (loaded subscription summary resources) s = ground arith
settle-trace_events (runs project v) s = refl
settle-trace_events (failed p) s = refl

pub settle-stream : {p : Pending} (a : Answer p) (s : Session) → (settle a s).stream ≡ s.stream
unfolding settle request_runs
settle-stream (value run r v) s = ground arith
settle-stream (loaded subscription summary resources) s = ground arith
settle-stream (runs project v) s = refl
settle-stream (failed p) s = refl

-- The session shows the same run, with all the events that it had, and others behind them.
pub record Extends (s t : Session) : Type 0 where
  pub same_run : t.run_id ≡ s.run_id
  pub added : List TraceEvent
  pub grown : t.trace_events ≡ s.trace_events ++ added

Extends-Step : {msg : Text} {s t u : Session} → Extends s t → Step msg t u → Extends s u
Extends-Step {s} {t} x (event subscription e _) =
    let (id, grown, _) = handle_run_event-stream subscription e t in
    record {
      same_run = id ∙ x.same_run;
      added = x.added ++ e ∷ [];
      grown = grown ∙ rw (x.grown) (append_assoc s.trace_events x.added (e ∷ []));
    }
Extends-Step x (stream_error run _) = record {
  same_run = x.same_run;
  added = x.added;
  grown = x.grown;
}
Extends-Step {t} x (answer before after a _) = record {
  same_run = settle-run_id a (record t { pending = before ++ after }) ∙ x.same_run;
  added = x.added;
  grown = settle-trace_events a (record t { pending = before ++ after }) ∙ x.grown;
}

-- Whatever the daemon sends and in whichever order it answers, the session stays with its run and
-- loses no event of the trace.
pub Reach-Extends : {msg : Text} {s t : Session} → Reach msg s t → Extends s t
Reach-Extends {s} here = record {
  same_run = refl;
  added = [];
  grown = sym (append-nil s.trace_events);
}
Reach-Extends (next r st) = Extends-Step (Reach-Extends r) st

-- The answer to the load at the end of a run causes one more request.
weight : Pending → ℕ
weight (fetch run r) = 1
weight (terminal_load subscription) = 2
weight (project_runs project) = 1

pub load : List Pending → ℕ
unfolding weight
load [] = 0
load (p ∷ ps) = weight p + load ps

load-append : (ps qs : List Pending) → load (ps ++ qs) ≡ load ps + load qs
unfolding load
load-append [] qs = omega arith
load-append (p ∷ ps) qs = omega (arith, load-append ps qs)

weight-pos : (p : Pending) → 1 ≤ weight p
unfolding weight
weight-pos p = ground arith

pub set_resource-pending :
    (r : Resource) (v : Value) (s : Session) → (set_resource r v s).pending ≡ s.pending
unfolding set_resource
set_resource-pending r v s = ground arith

load_cons : (p : Pending) (ps : List Pending) → load (p ∷ ps) ≡ weight p + load ps
unfolding load
load_cons p ps = refl

request_runs-load :
    (project : Option Text) (s : Session)
    → load (request_runs project s).pending ≤ load s.pending + 1
unfolding request_runs load
request_runs-load none s = omega arith
request_runs-load (some project) s =
    ground (arith, load-append s.pending (project_runs project ∷ []))

pub apply_terminal_run_state-pending :
    (summary : RunSummary) (resources : RunResources) (s : Session)
    → (apply_terminal_run_state summary resources s).pending ≡ s.pending
unfolding apply_terminal_run_state
apply_terminal_run_state-pending summary resources s = refl

-- An answer puts at most this much in the place of its request.
settle-load :
    {p : Pending} (a : Answer p) (s : Session)
    → suc (load (settle a s).pending) ≤ load s.pending + weight p
unfolding settle load
settle-load (value run r v) s = omega (arith, ap load (set_resource-pending r v s))
settle-load (loaded subscription summary resources) s = omega (
  arith,
  request_runs-load subscription.project (apply_terminal_run_state summary resources s),
  ap load (apply_terminal_run_state-pending summary resources s),
)
settle-load (runs project v) s = omega arith
settle-load (failed p) s = omega (arith, weight-pos p)

pub steps : {msg : Text} {s t : Session} → Reach msg s t → ℕ
steps here = 0
steps (next r st) = suc (steps r)

-- The stream is closed, the trace is that of `s`, and `n` steps have been paid for.
pub record Rests (s : Session) (n : ℕ) (t : Session) : Type 0 where
  pub closed : t.stream ≡ none
  pub same_trace : t.trace_events ≡ s.trace_events
  pub paid : n + load t.pending ≤ load s.pending

Rests-Step : {msg : Text} {s t u : Session} (n : ℕ) → Rests s n t → Step msg t u → Rests s (suc n) u
Rests-Step n x (event run e open_stream) = cc (x.closed)
Rests-Step n x (stream_error run open_stream) = cc (x.closed)
Rests-Step {t} n x (answer before after {p} a split) =
    let rest = record t { pending = before ++ after } in
    record {
      closed = settle-stream a rest ∙ x.closed;
      same_trace = settle-trace_events a rest ∙ x.same_trace;
      paid = omega (
        arith,
        x.paid,
        settle-load a rest,
        ap load split,
        load-append before (p ∷ after),
        load-append before after,
        load_cons p after,
      );
    }

-- Once the stream is closed it stays closed and the trace stays as it is, and the session takes at
-- most as many further steps as its pending requests weigh: two for a load at the end of a run, one
-- for any other.
pub closed-Rests :
    {msg : Text} {s t : Session} → s.stream ≡ none → (r : Reach msg s t) → Rests s (steps r) t
unfolding steps
closed-Rests closed here = record { closed = closed; same_trace = refl; paid = omega arith }
closed-Rests closed (next r st) = Rests-Step (steps r) (closed-Rests closed r) st
