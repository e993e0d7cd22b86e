-- ===== src/Workbench/Launch.antt =====
-- frontend/src/pages/Workbench.tsx: preparing and starting a run, and going on from one of the
-- history.
pub mod Admission
pub mod History
pub mod Idle
use Prim.Native.String.{String}
use mini_agent_oscoder.Prelude.{
  Bool, true, false, not, ◌&&◌, Option, none, some, List, [], ◌∷◌, Text, lit, text_eq, trim,
  non_empty, is_some, join, or_text, if◌then◌else◌,
}
use mini_agent_oscoder.Json.{Value, bool, TraceEvent, as_record, get}
use mini_agent_oscoder.I18n.{Locale, Tables}
use mini_agent_oscoder.Commands.{TaskCommand, parse_task_command}
use mini_agent_oscoder.Session.{Session, RunResources, request, stop_run_stream, subscribe_to_run}
use mini_agent_oscoder.Session.Loading.{LoadedRunHeader, clear_terminal_state, apply_loaded_run}
use mini_agent_oscoder.WorkItems.Describe.{Translator, is_true}
use mini_agent_oscoder.Workbench.{
  Project, ModelStatus, Connection, Workbench, ResumedRun, create_run, start_run, resume_run,
  load_run_resources, get_trace, get_admission, get_model_route, get_formal_program,
  get_model_status, get_model_config, open_project, Outcome, failed, replied, Ask, strict, optional,
  Replies, Script, done, throws, update, await, on_session, set_error, project_id_of, refresh_runs,
  show_error,
}
use mini_agent_oscoder.Workbench.Control.{with_run, set_busy, set_status}

-- `status?.configured`
abbrev pub is_configured : Option ModelStatus → Bool
is_configured none = false
is_configured (some status) = status.configured

-- `admission?.can_start === false`
abbrev pub is_false : Option Value → Bool
is_false (some (bool b)) = not b
is_false _ = false

abbrev pub is_blocked : LoadedRunHeader → Bool
is_blocked run = is_false (get (as_record run.admission) "can_start")

-- `latestAdmission.can_start`, which is a Boolean
abbrev pub can_start : Value → Bool
can_start admission = is_true (get (as_record (some admission)) "can_start")

abbrev pub issues_of : Option ModelStatus → Text
issues_of none = []
issues_of (some status) = join (lit ", ") status.issues

-- What `prepareRun` clears before it asks the daemon for a run.
abbrev pub clear_prepared : Session → Session
clear_prepared s = stop_run_stream (record (clear_terminal_state (record s { error = none })) {
  conversation = none;
  recovery = none;
  report = none;
  evidence = none;
  memory = none;
  governance = none;
  extensions = none;
  formal_program = none;
})

abbrev pub connected : Workbench → Workbench
connected w = record w { connection = Connection.connected }

-- `setProject`, `setWorkspacePath`, `setModelStatus` and `setModelConfig`
abbrev pub show_project : Project → Option ModelStatus → Option Value → Workbench → Workbench
show_project project status config w = record w {
  project = some project;
  workspace_path = project.path;
  model_status = status;
  model_config = config;
}

-- The end of an action, with `finally`.
abbrev pub settled : Script
settled = update (set_busy false) done

module _ (tables : Tables) (locale : Locale) (t : Translator) where
  -- `t("error.modelSetup", { issues: … })`
  abbrev pub setup_text : Option ModelStatus → Text
  setup_text status =
      t "error.modelSetup"
        ((lit "issues", or_text (issues_of status) (t "error.providerUnavailable" [])) ∷ [])

  -- The same where an error was caught.
  abbrev pub caught_at : String → Option Text → Script → Script
  caught_at key e rest = update (show_error tables locale t key e) (update (set_busy false) rest)

  -- `startRun` and what follows it. `rendered` is the identifier of the project that is open in the
  -- render of the action, and with it of the events that it subscribes to; `project` is the one of
  -- `loadProjectRuns`.
  unfoldable pub start_loaded :
      (rendered project : Option Text) → Text → List TraceEvent → String → Script → Script
  start_loaded rendered project run trace key rest = await (strict (start_run run) ∷ []) (λ out.
      elim out [
        | failed e ↦ caught_at key e rest
        | replied (status, _) ↦
            update
              (λ w.
                on_session (subscribe_to_run (record { run = run; project = rendered }))
                  (refresh_runs project (set_status status w)))
              settled
      ])

  -- A run that was created and loaded is started, if that is wanted and allowed.
  unfoldable pub start_prepared :
      (rendered : Option Text) → Bool → Option ModelStatus → LoadedRunHeader → RunResources → Script
  unfolding start_loaded
  start_prepared rendered start_now status run resources =
      if not start_now
      then settled
      else if not (is_configured status)
      then update (λ w. record w { model_setup_open = true })
          (caught_at "error.prepareRun" (some (setup_text status)) done)
      else if is_blocked run
      then caught_at "error.prepareRun" (some (t "admission.launchBlocked" [])) done
      else start_loaded rendered rendered run.run_id resources.trace "error.prepareRun" done

  -- `prepareRun` with the resources of the run that was created.
  unfoldable pub prepare_loaded :
      (rendered : Option Text)
      → Bool
      → TaskCommand
      → Option ModelStatus
      → LoadedRunHeader
      → Outcome (RunResources × Unit)
      → Script
  unfolding start_prepared
  prepare_loaded rendered start_now parsed status run (failed e) =
      caught_at "error.prepareRun" e done
  prepare_loaded rendered start_now parsed status run (replied (resources, _)) =
      update
        (λ v.
          refresh_runs rendered
            (record (connected
              (on_session (apply_loaded_run run parsed.task parsed.mode resources none) v)) {
                model_status = status;
              }))
        (start_prepared rendered start_now status run resources)

  -- `prepareRun` with the run that was created.
  unfoldable pub prepare_created :
      (rendered : Option Text)
      → Bool
      → TaskCommand
      → Outcome (LoadedRunHeader × (Option ModelStatus × Unit))
      → Script
  unfolding prepare_loaded
  prepare_created rendered start_now parsed (failed e) = caught_at "error.prepareRun" e done
  prepare_created rendered start_now parsed (replied (run, (status, _))) =
      await (strict (load_run_resources run.run_id) ∷ [])
        (prepare_loaded rendered start_now parsed status run)

  unfoldable pub prepare_run : Workbench → Bool → Text → Option Text → Script
  unfolding prepare_created
  prepare_run w start_now requested parent = elim w.project [
    | none ↦ done
    | some project ↦
        let parsed = parse_task_command requested w.session.mode in
        if not (non_empty parsed.task)
        then update (set_error (some (t "error.emptyTask" []))) done
        else update (λ v. on_session clear_prepared (set_busy true v))
            (await
              (strict (create_run project.project_id parsed.task parsed.mode parent)
                ∷ optional (get_model_status project.project_id)
                ∷ [])
              (prepare_created (some project.project_id) start_now parsed))
  ]

  -- What `launchRun` does with the newest trace, admission, route and program.
  unfoldable pub launch_checked :
      (rendered : Option Text) → Text → List TraceEvent → Value → Value → Value → Script
  unfolding start_loaded
  launch_checked rendered run trace admission route program =
      update
        (on_session (λ s. record s {
          trace_events = trace;
          admission = some admission;
          model_route = some route;
          formal_program = some program;
        }))
        (if not (can_start admission)
          then update (set_error (some (t "admission.launchBlocked" []))) settled
          else start_loaded rendered rendered run trace "error.startRun" done)

  unfoldable pub launch_answered :
      (rendered : Option Text)
      → Text
      → Outcome (List TraceEvent × (Value × (Value × (Value × Unit))))
      → Script
  unfolding launch_checked
  launch_answered rendered run (failed e) = caught_at "error.startRun" e done
  launch_answered rendered run (replied (trace, (admission, (route, (program, _))))) =
      launch_checked rendered run trace admission route program

  unfoldable pub launch_run : Workbench → Script
  unfolding launch_answered
  launch_run w = with_run w.session.run_id (λ run.
      if not (is_configured w.model_status)
      then update (set_error (some (setup_text w.model_status))) done
      else update
          (λ v.
            on_session (λ s. record s { error = none; runtime_details_open = false })
              (set_busy true v))
          (await
            (strict (get_trace run)
              ∷ strict (get_admission run)
              ∷ strict (get_model_route run)
              ∷ strict (get_formal_program run)
              ∷ [])
            (launch_answered (project_id_of w.project) run)))

  -- `startFollowUp`
  unfoldable pub start_follow_up : Workbench → Script
  unfolding prepare_run
  start_follow_up w =
      let next_task = trim w.session.follow_up_task in
      with_run w.session.run_id (λ run.
        if not (non_empty next_task)
        then done
        else update (on_session (λ s. record s { follow_up_task = [] }))
            (prepare_run w true next_task (some run)))
