-- ===== src/Workbench/Projects.antt =====
-- frontend/src/pages/Workbench.tsx: the connection to the daemon, the project and the model.
use mini_agent_oscoder.Prelude.{
  Bool, true, false, not, Option, none, some, [], ◌∷◌, Text, trim, non_empty, is_some,
  if◌then◌else◌,
}
use mini_agent_oscoder.Json.{Value}
use mini_agent_oscoder.I18n.{Locale, Tables, localize_error_message}
use mini_agent_oscoder.Run.Helpers.{is_runtime_connection_error}
use mini_agent_oscoder.Session.Loading.{reset_run_state}
use mini_agent_oscoder.WorkItems.Describe.{Translator}
use mini_agent_oscoder.Workbench.{
  Connection, Workbench, health, get_history_projects, open_project, get_model_status,
  get_model_config, choose_directory, save_credential, failed, replied, strict, optional, Script,
  done, update, await, on_session, set_error, refresh_runs, show_error,
}
use mini_agent_oscoder.Workbench.Launch.{connected, show_project}

-- `setError((current) => …)`: an error of the connection goes when the connection is back.
unfoldable pub forget_connection_error : Option Text → Option Text
forget_connection_error none = none
forget_connection_error (some message) =
    if is_runtime_connection_error message then none else some message

abbrev set_connection : Connection → Workbench → Workbench
set_connection c w = record w { connection = c }

abbrev set_project_busy : Bool → Workbench → Workbench
set_project_busy b w = record w { project_busy = b }

abbrev set_setup_busy : Bool → Workbench → Workbench
set_setup_busy b w = record w { model_setup_busy = b }

-- `if (history) setRecentProjects(history.projects)`; a request that may fail leaves what was shown.
abbrev show_history : Option Value → Workbench → Workbench
show_history none w = w
show_history (some projects) w = record w { recent_projects = some projects }

-- The recent projects are asked for, and the action goes on.
abbrev with_history : (Option Value → Script) → Script
with_history k =
    await (optional get_history_projects ∷ [])
      (λ out. elim out [ failed e ↦ k none | replied (history, _) ↦ k history ])

unfoldable pub refresh_connection : Script
unfolding forget_connection_error
refresh_connection = update (set_connection Connection.checking) (
    await (strict health ∷ []) (λ out. elim out [
      | failed e ↦ update (set_connection Connection.offline) done
      | replied _ ↦
          update
            (λ w.
              on_session (λ s. record s { error = forget_connection_error s.error }) (connected w))
            (with_history (λ history. update (show_history history) done))
    ]))

-- `openHistory`
unfoldable pub open_history : Option Text → Workbench → Workbench
open_history run w = record w { history_run_id = run; history_open = true }

module _ (tables : Tables) (locale : Locale) (t : Translator) where
  unfoldable pub open_workspace : Text → Script
  open_workspace path =
      if not (non_empty (trim path))
      then done
      else update (λ w. set_error none (set_project_busy true w))
          (await (strict (open_project (trim path)) ∷ []) (λ out. elim out [
            | failed e ↦
                update (show_error tables locale t "error.openProject" e)
                  (update (set_project_busy false) done)
            | replied (opened, _) ↦
                await
                  (optional (get_model_status opened.project_id)
                    ∷ optional (get_model_config opened.project_id)
                    ∷ [])
                  (λ found. elim found [
                    | failed e ↦
                        update (show_error tables locale t "error.openProject" e)
                          (update (set_project_busy false) done)
                    | replied (status, (config, _)) ↦
                        update (λ w. connected (show_project opened status config w))
                          (with_history (λ history.
                            update
                              (λ w. refresh_runs (some opened.project_id) (show_history history w))
                              (update (set_project_busy false) done)))
                  ])
          ]))

  -- `browseWorkspace`
  unfoldable pub browse_workspace : Script
  unfolding open_workspace
  browse_workspace = await (strict choose_directory ∷ []) (λ out. elim out [
    | failed e ↦ update (show_error tables locale t "error.openProject" e) done
    | replied (selected, _) ↦ elim selected [
      | none ↦ done
      | some path ↦ if non_empty path then open_workspace path else done
    ]
  ])

  abbrev setup_failed : Option Text → Script
  setup_failed e =
      update
        (λ w. record w {
          model_setup_error =
              some (localize_error_message tables locale e (t "modelSetup.failed" []));
        })
        (update (set_setup_busy false) done)

  unfoldable pub save_model_credential : Workbench → Text → Script
  save_model_credential w key = elim w.project [
    | none ↦ done
    | some project ↦
        update (λ v. record (set_setup_busy true v) { model_setup_error = none })
          (await (strict (save_credential key) ∷ []) (λ saved. elim saved [
            | failed e ↦ setup_failed e
            | replied _ ↦ await (strict (open_project project.path) ∷ []) (λ out. elim out [
              | failed e ↦ setup_failed e
              | replied (reopened, _) ↦
                  await
                    (strict (get_model_status reopened.project_id)
                      ∷ optional (get_model_config reopened.project_id)
                      ∷ [])
                    (λ found. elim found [
                      | failed e ↦ setup_failed e
                      | replied (status, (config, _)) ↦
                          update
                            (λ v. record v {
                              project = some reopened;
                              model_status = some status;
                              model_config = config;
                              model_setup_open = false;
                              session =
                                  if is_some w.session.run_id
                                  then reset_run_state false v.session
                                  else v.session;
                            })
                            (update (set_setup_busy false) done)
                    ])
            ])
          ]))
  ]
