-- ===== src/Workbench/Launch/History.antt =====
-- frontend/src/pages/Workbench.tsx: going on from a run of the history, by resuming it or by a new run
-- behind it.
use mini_agent_oscoder.Prelude.{
  true, false, not, Option, none, some, [], ◌∷◌, Text, text_eq, trim, non_empty, if◌then◌else◌,
}
use mini_agent_oscoder.I18n.{Locale, Tables}
use mini_agent_oscoder.Commands.{TaskCommand, parse_task_command}
use mini_agent_oscoder.Session.{stop_run_stream}
use mini_agent_oscoder.Session.Loading.{apply_loaded_run}
use mini_agent_oscoder.WorkItems.Describe.{Translator}
use mini_agent_oscoder.Workbench.{
  Project, Workbench, create_run, resume_run, load_run_resources, get_model_status,
  get_model_config, open_project, failed, replied, strict, optional, Script, done, throws, update,
  await, on_session, set_error, project_id_of, refresh_runs,
}
use mini_agent_oscoder.Workbench.Control.{set_busy}
use mini_agent_oscoder.Workbench.Launch.{
  is_configured, is_blocked, connected, show_project, setup_text, settled, caught_at, start_loaded,
}

module _ (tables : Tables) (locale : Locale) (t : Translator) where
  -- `resumeHistoricalRun`
  unfoldable pub resume_historical_run : Text → Script
  resume_historical_run historical =
      update (λ v. on_session (λ s. stop_run_stream (record s { error = none })) (set_busy true v))
        (await (strict (resume_run historical) ∷ []) (λ out. elim out [
          | failed e ↦ caught_at tables locale t "history.resumeError" e throws
          | replied (resumed, _) ↦
              await
                (strict (load_run_resources resumed.header.run_id)
                  ∷ optional (get_model_status resumed.project.project_id)
                  ∷ optional (get_model_config resumed.project.project_id)
                  ∷ [])
                (λ loaded. elim loaded [
                  | failed e ↦ caught_at tables locale t "history.resumeError" e throws
                  | replied (resources, (status, (config, _))) ↦
                      update
                        (λ v.
                          refresh_runs (some resumed.project.project_id)
                            (record (connected (
                              on_session
                                (apply_loaded_run resumed.header resumed.task resumed.mode resources
                                  resumed.artifacts)
                                (show_project resumed.project status config v))) {
                                  history_open = false;
                                  history_run_id = none;
                                }))
                        settled
                ])
        ]))

  -- The rest of `continueHistoricalRun`, with the project of the run; `rendered` is the identifier of
  -- the project that is open in the render of the action.
  unfoldable pub continue_in : Option Text → Project → Text → TaskCommand → Script
  unfolding start_loaded
  continue_in rendered opened parent parsed =
      if not (non_empty parsed.task)
      then update (set_error (some (t "error.emptyTask" []))) settled
      else await
          (optional (get_model_status opened.project_id)
            ∷ optional (get_model_config opened.project_id)
            ∷ [])
          (λ out. elim out [
            | failed e ↦ caught_at tables locale t "history.resumeError" e throws
            | replied (status, (config, _)) ↦
                if not (is_configured status)
                then update
                    (λ v. record (show_project opened status config v) { model_setup_open = true })
                    (caught_at tables locale t "history.resumeError"
                      (some (setup_text tables locale t status)) throws)
                else await
                    (strict (create_run opened.project_id parsed.task parsed.mode (some parent))
                      ∷ [])
                    (λ created. elim created [
                      | failed e ↦ caught_at tables locale t "history.resumeError" e throws
                      | replied (run, _) ↦
                          await (strict (load_run_resources run.run_id) ∷ []) (λ loaded.
                            elim loaded [
                              | failed e ↦ caught_at tables locale t "history.resumeError" e throws
                              | replied (resources, _) ↦
                                  update
                                    (λ v. connected (
                                      on_session
                                        (apply_loaded_run run parsed.task parsed.mode resources
                                          none)
                                        (show_project opened status config v)))
                                    (if is_blocked run
                                      then caught_at tables locale t "history.resumeError"
                                          (some (t "admission.launchBlocked" [])) throws
                                      else start_loaded tables locale t rendered
                                          (some opened.project_id) run.run_id resources.trace
                                          "history.resumeError" throws)
                            ])
                    ])
          ])

  -- The project of a run of the history: the open one, or else it is opened.
  abbrev pub with_project : Option Project → Text → (Project → Script) → Script
  with_project none path k = await (strict (open_project path) ∷ []) (λ out. elim out [
    | failed e ↦ caught_at tables locale t "history.resumeError" e throws
    | replied (project, _) ↦ k project
  ])
  with_project (some current) path k =
      if text_eq current.path path
      then k current
      else await (strict (open_project path) ∷ []) (λ out. elim out [
        | failed e ↦ caught_at tables locale t "history.resumeError" e throws
        | replied (project, _) ↦ k project
      ])

  unfoldable pub continue_historical_run :
      Workbench → (run project_path mode : Text) → Text → Script
  unfolding continue_in
  continue_historical_run w run project_path mode next_task =
      let requested = trim next_task in
      if not (non_empty requested)
      then done
      else update
          (λ v.
            on_session (λ s. stop_run_stream (record s { error = none }))
              (record (set_busy true v) { history_open = false }))
          (with_project w.project project_path (λ opened.
            continue_in (project_id_of w.project) opened run (parse_task_command requested mode)))
