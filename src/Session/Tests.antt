-- ===== src/Session/Tests.antt =====
-- The theorems of the session at concrete sessions and events.
use mini_agent_oscoder.Prelude.{
  ◌≡◌, refl, inr, false, none, some, [], ◌∷◌, lit, text_eq, starts_with, if◌then◌else◌,
}
use mini_agent_oscoder.Json.{null, str, obj, end, field, TraceEvent, property}
use mini_agent_oscoder.WorkItems.{payload_field}
use mini_agent_oscoder.Run.Helpers.{is_evidence_event}
use mini_agent_oscoder.Session.{
  PanelTarget, Resource, RunSubscription, fetch, terminal_load, project_runs, RunResources, Session,
  stop_run_stream, request_runs,
}
use mini_agent_oscoder.Session.Subscription.{
  handle_run_event, refresh_event_resources, apply_approval, settle, Answer, failed, event, answer,
}
use mini_agent_oscoder.Session.Subscription.Events.{moved_to, ends, handle_run_event-stream}
use mini_agent_oscoder.Session.Subscription.Stream.{
  Reach, here, next, Extends, Reach-Extends, steps, Rests, closed-Rests,
}
use mini_agent_oscoder.Session.Subscription.Requests.{Follows, Reach-Follows}
use mini_agent_oscoder.Session.Loading.{LoadedRunHeader, apply_loaded_run}
use mini_agent_oscoder.Session.Loading.Separation.{late_answer-crosses_runs}

abbrev followed : RunSubscription
followed = record { run = lit "run_a"; project = some (lit "p") }

abbrev blank : Session
blank = record {
  run_id = some (lit "run_a");
  run_status = lit "running";
  task = lit "fix it";
  mode = lit "Bugfix";
  contract = none;
  admission = none;
  model_route = none;
  context_pack = none;
  memory = none;
  governance = none;
  extensions = none;
  formal_program = none;
  artifacts = none;
  trace_events = [];
  final_message = [];
  termination_reason = [];
  last_observation = end;
  follow_up_task = [];
  steering_busy = false;
  completion = none;
  conversation = none;
  approval = none;
  recovery = none;
  evidence = none;
  report = none;
  recent_runs = none;
  error = none;
  runtime_details_open = false;
  runtime_panel_target = PanelTarget.overview;
  workspace_files_open = false;
  workspace_change_set = none;
  stream = some followed;
  pending = [];
}

abbrev resources : RunResources
resources = record {
  context = null;
  trace = [];
  artifacts = null;
  recovery = null;
  report = null;
  evidence = null;
  memory = null;
  governance = null;
  extensions = null;
  formal_program = null;
  conversation = null;
}

abbrev header : LoadedRunHeader
header = record {
  run_id = lit "run_b";
  status = lit "planning";
  contract = none;
  admission = none;
  model_route = none;
  formal_program = some (str (lit "own"));
}

abbrev finished : TraceEvent
finished = record {
  time = lit "t";
  event = lit "run.transitioned";
  payload = field (lit "status") (str (lit "completed")) end;
}

abbrev asking : TraceEvent
asking = record {
  time = lit "t";
  event = lit "approval.requested";
  payload =
      field (lit "approval")
        (obj (
          field (lit "approval_id") (str (lit "p1")) (
            field (lit "run_id") (str (lit "run_a"))
              (field (lit "reason") (str (lit "patch")) (field (lit "target") (obj end) end)))))
        end;
}

-- The end of a run closes the stream and asks for the artifacts, the runs and the results.
finished-run :
    ((handle_run_event followed finished blank).stream ≡ none)
    × ((handle_run_event followed finished blank).pending
        ≡ fetch (lit "run_a") Resource.artifacts
          ∷ project_runs (lit "p")
          ∷ terminal_load followed
          ∷ [])
unfolding handle_run_event refresh_event_resources apply_approval stop_run_stream request_runs
    payload_field property text_eq starts_with lit is_evidence_event
finished-run = (refl, refl)

handle_run_event-stream_example :
    ((handle_run_event followed finished blank).run_id ≡ some (lit "run_a"))
    × ((handle_run_event followed finished blank).trace_events ≡ finished ∷ [])
    × ((handle_run_event followed finished blank).stream
        ≡ (if ends (moved_to finished) then none else some followed))
handle_run_event-stream_example = handle_run_event-stream followed finished blank

-- A run that is followed from a render without a project: its end asks for its artifacts and results,
-- not for the list of runs.
unlisted-run :
    (handle_run_event (record { run = lit "run_a"; project = none }) finished blank).pending
    ≡ fetch (lit "run_a") Resource.artifacts
      ∷ terminal_load (record { run = lit "run_a"; project = none })
      ∷ []
unfolding handle_run_event refresh_event_resources apply_approval stop_run_stream request_runs
    payload_field property text_eq starts_with lit is_evidence_event
unlisted-run = refl

abbrev closed_session : Session
closed_session = record blank { stream = none; pending = terminal_load followed ∷ [] }

abbrev lost : Answer (terminal_load followed)
lost = failed (terminal_load followed)

abbrev drained : Session
drained = settle lost (record closed_session { pending = [] })

abbrev one_failure : Reach (lit "offline") closed_session drained
one_failure = next here (answer [] [] lost refl)

Reach-Extends_example : Extends closed_session drained
Reach-Extends_example = Reach-Extends one_failure

closed-Rests_example : Rests closed_session (steps one_failure) drained
closed-Rests_example = closed-Rests refl one_failure

abbrev other_run : Session
other_run = record blank { run_status = lit "failed"; trace_events = finished ∷ [] }

abbrev waiting : Session
waiting = record blank { pending = fetch (lit "run_a") Resource.artifacts ∷ [] }

late_answer-crosses_runs_example :
    (t : Session) × Reach
      (lit "offline")
      (apply_loaded_run header (lit "x") (lit "Chat") resources none (stop_run_stream waiting))
      t
    × (t.run_id ≡ some (lit "run_b"))
    × (t.artifacts ≡ some (str (lit "of run_a")))
late_answer-crosses_runs_example =
    late_answer-crosses_runs (lit "offline") (lit "run_a") header (lit "x") (lit "Chat") resources
      none waiting [] [] (str (lit "of run_a")) refl

abbrev following : Session
following = record blank { pending = terminal_load followed ∷ [] }

abbrev ended : Reach (lit "offline") following (handle_run_event followed finished following)
ended = next here (event followed finished refl)

Reach-Follows_example : Follows followed (handle_run_event followed finished following)
Reach-Follows_example =
    Reach-Follows followed (record { stream = inr refl; pending = (refl, tt) }) ended
