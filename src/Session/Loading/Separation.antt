-- ===== src/Session/Loading/Separation.antt =====
-- What one run can leave behind in the view of the next.
use mini_agent_oscoder.Prelude.{◌≡◌, refl, Bool, Option, some, List, ◌∷◌, ◌++◌, Text, arith}
use mini_agent_oscoder.Json.{Value}
use mini_agent_oscoder.Session.{Resource, Pending, fetch, RunResources, Session, stop_run_stream}
use mini_agent_oscoder.Session.Subscription.{settle, value, answer}
use mini_agent_oscoder.Session.Subscription.Stream.{Reach, here, next}
use mini_agent_oscoder.Session.Loading.{LoadedRunHeader, apply_loaded_run, reset_run_state}

-- Two sessions agree on all that does not belong to a run.
pub record SameFrame (s t : Session) : Type 0 where
  pub recent_runs : s.recent_runs ≡ t.recent_runs
  pub pending : s.pending ≡ t.pending

-- They agree on what the loading of a run does not write, too.
pub record SameRest (s t : Session) : Type 0 where
  pub frame : SameFrame s t
  pub follow_up_task : s.follow_up_task ≡ t.follow_up_task
  pub steering_busy : s.steering_busy ≡ t.steering_busy
  pub error : s.error ≡ t.error
  pub stream : s.stream ≡ t.stream

-- A loaded run replaces all that was shown: from the session before, only the follow-up draft, the
-- steering flag, the error, the list of runs, the stream and the pending requests remain.
pub apply_loaded_run-separate :
    (run : LoadedRunHeader) (task mode : Text) (resources : RunResources) (o : Option Value)
    (s t : Session)
    → SameRest s t
    → apply_loaded_run run task mode resources o s ≡ apply_loaded_run run task mode resources o t
unfolding apply_loaded_run
apply_loaded_run-separate run task mode resources o s t h = ground arith

-- A reset forgets the run: what is left depends on the list of runs, the pending requests, the mode
-- and the task alone.
pub reset_run_state-separate :
    (clear_task : Bool) (s t : Session)
    → SameFrame s t
    → s.mode ≡ t.mode
    → s.task ≡ t.task
    → reset_run_state clear_task s ≡ reset_run_state clear_task t
unfolding reset_run_state
reset_run_state-separate clear_task s t h m k = ground arith

-- The formal program of the run's header is never shown: the one of the loaded resources is.
pub apply_loaded_run-formal_program :
    (run : LoadedRunHeader) (task mode : Text) (resources : RunResources) (o : Option Value)
    (s : Session)
    → (apply_loaded_run run task mode resources o s).formal_program ≡ some resources.formal_program
unfolding apply_loaded_run
apply_loaded_run-formal_program run task mode resources o s = refl

-- A request for the artifacts of one run that is pending while another run is loaded: one step later
-- the view is of the second run and shows the artifacts of the first.
pub late_answer-crosses_runs :
    (msg first_run : Text) (run : LoadedRunHeader) (task mode : Text) (resources : RunResources)
    (o : Option Value) (s : Session) (before after : List Pending) (v : Value)
    → s.pending ≡ before ++ fetch first_run Resource.artifacts ∷ after
    → (t : Session) × Reach msg (apply_loaded_run run task mode resources o (stop_run_stream s)) t
      × (t.run_id ≡ some run.run_id)
      × (t.artifacts ≡ some v)
unfolding apply_loaded_run settle stop_run_stream
late_answer-crosses_runs msg first_run run task mode resources o s before after v h = (
  settle (value first_run Resource.artifacts v)
      (record (apply_loaded_run run task mode resources o (stop_run_stream s)) {
        pending = before ++ after;
      }),
  next here (answer before after (value first_run Resource.artifacts v) h),
  refl,
  refl,
)
