-- ===== src/History/Actions.antt =====
-- The actions of frontend/src/components/RunCenter.tsx, as scripts; what an action reads before it waits,
-- and in `refresh` after it too, is the state `w` of the click.
use Prim.Native.String.{String}
use mini_agent_oscoder.Prelude.{
  Bool, true, false, not, Option, none, some, List, [], ◌∷◌, Text, non_empty, or_default,
  if◌then◌else◌,
}
use mini_agent_oscoder.Json.{Value}
use mini_agent_oscoder.I18n.{Locale, Tables, localize_error_message}
use mini_agent_oscoder.WorkItems.Describe.{Translator}
use mini_agent_oscoder.Scripts.{Outcome, failed, replied, strict, done, update, await}
use mini_agent_oscoder.History.{
  HistoryPage, HistoryProject, HistoryRunDetail, RunCenter, Script, archive_history_run,
  archived_detail, clear_selection, compare_history_runs, delete_history_run, filters_of,
  forget_run, get_evaluation_summary, get_history_projects, get_history_run, get_history_runs,
  resume, set_detail_loading, set_loading, show_page, toggle_selected, unless_empty,
}

-- What a user can do in the history.
pub data Action : Type 0 where
  opened : (run project : Option Text) → Action
  ticked filtered reloaded : Action
  inspected toggled : (run : Text) → Action
  cleared compared archived deleted resumed evaluated left_comparison left_detail : Action

module _ (tables : Tables) (locale : Locale) (t : Translator) where
  abbrev pub show_error : String → Option Text → RunCenter → RunCenter
  show_error key caught w = record w {
    error = some (localize_error_message tables locale caught (t key []));
  }

  -- The ends of `refresh`: whatever comes, the list is not loading any more.
  abbrev pub refreshed : RunCenter → HistoryPage → Script → Script
  refreshed w page k = update (show_page w.detail page) (update (set_loading false) k)

  abbrev pub not_refreshed : Option Text → Script → Script
  not_refreshed e k = update (show_error "history.loadError" e) (update (set_loading false) k)

  unfoldable pub all_answered :
      RunCenter → Script → Outcome (List HistoryProject × (HistoryPage × Unit)) → Script
  unfolding show_page
  all_answered w k (failed e) = not_refreshed e k
  all_answered w k (replied (projects, (page, _))) =
      update (λ v. record v { projects = projects }) (refreshed w page k)

  unfoldable pub runs_answered : RunCenter → Script → Outcome (HistoryPage × Unit) → Script
  unfolding show_page
  runs_answered w k (failed e) = not_refreshed e k
  runs_answered w k (replied (page, _)) = refreshed w page k

  -- `refresh(loadProjects, projectOverride)`, and what comes after it.
  unfoldable pub refresh : RunCenter → Bool → Option Text → Script → Script
  unfolding all_answered runs_answered filters_of
  refresh w load_projects override k =
      update (λ v. record v { loading = true; error = none })
        (if load_projects
          then await
              (strict get_history_projects ∷ strict (get_history_runs (filters_of w override)) ∷ [])
              (all_answered w k)
          else await (strict (get_history_runs (filters_of w override)) ∷ []) (runs_answered w k))

  -- `catch` and `finally` of the actions on a run.
  abbrev pub fails : String → Option Text → Script
  fails key e = update (show_error key e) (update (set_detail_loading false) done)

  abbrev pub settles : Script
  settles = update (set_detail_loading false) done

  unfoldable pub inspect_run : Text → Script
  inspect_run run =
      update
        (λ v. record v {
          detail_loading = true;
          comparison = none;
          evaluation_open = false;
          error = none;
        })
        (await (strict (get_history_run run) ∷ []) (λ out. elim out [
          | failed e ↦ fails "history.loadError" e
          | replied (detail, _) ↦ update (λ v. record v { detail = some detail }) settles
        ]))

  unfoldable pub compare_pair : Text → Text → Script
  compare_pair left right =
      update (λ v. record v { detail_loading = true; error = none })
        (await (strict (compare_history_runs left right) ∷ []) (λ out. elim out [
          | failed e ↦ fails "history.compareError" e
          | replied (comparison, _) ↦
              update
                (λ v. record v {
                  comparison = some comparison;
                  detail = none;
                  evaluation_open = false;
                })
                settles
        ]))

  unfoldable pub compare_runs : List Text → Script
  unfolding compare_pair
  compare_runs (left ∷ right ∷ []) = compare_pair left right
  compare_runs _ = done

  unfoldable pub archive_answered :
      RunCenter → HistoryRunDetail → Bool → Outcome (Value × Unit) → Script
  unfolding refresh archived_detail
  archive_answered w detail archive (failed e) = fails "history.archiveError" e
  archive_answered w detail archive (replied _) =
      update (λ v. record v { detail = some (archived_detail detail archive) })
        (refresh w true none settles)

  unfoldable pub toggle_archive_of : RunCenter → HistoryRunDetail → Script
  unfolding archive_answered
  toggle_archive_of w detail =
      let archive = not detail.run.archived in
      update (set_detail_loading true) (
        await (strict (archive_history_run detail.run.run_id archive) ∷ [])
          (archive_answered w detail archive))

  unfoldable pub delete_answered : RunCenter → Text → Outcome (Value × Unit) → Script
  unfolding refresh forget_run
  delete_answered w run (failed e) = fails "history.deleteError" e
  delete_answered w run (replied _) = update (forget_run run) (refresh w true none settles)

  unfoldable pub delete_run_of : RunCenter → Text → Script
  unfolding delete_answered
  delete_run_of w run =
      update (set_detail_loading true)
        (await (strict (delete_history_run run) ∷ []) (delete_answered w run))

  unfoldable pub resume_run_of : Text → Script
  resume_run_of run =
      update (λ v. record v { detail_loading = true; error = none })
        (await (strict (resume run) ∷ [])
          (λ out. elim out [ failed e ↦ fails "history.resumeError" e | replied _ ↦ settles ]))

  -- `if (!detail) return`
  abbrev pub with_detail : Option HistoryRunDetail → (HistoryRunDetail → Script) → Script
  with_detail none k = done
  with_detail (some detail) k = k detail

  unfoldable pub toggle_archive : RunCenter → Script
  unfolding toggle_archive_of
  toggle_archive w = with_detail w.detail (toggle_archive_of w)

  unfoldable pub delete_run : RunCenter → Script
  unfolding delete_run_of
  delete_run w = with_detail w.detail (λ detail. delete_run_of w detail.run.run_id)

  unfoldable pub resume_run : RunCenter → Script
  unfolding resume_run_of
  resume_run w = with_detail w.detail (λ detail. resume_run_of detail.run.run_id)

  unfoldable pub show_evaluation : RunCenter → Script
  show_evaluation w =
      update
        (λ v. record v {
          detail_loading = true;
          error = none;
          detail = none;
          comparison = none;
          evaluation_open = true;
        })
        (await (strict (get_evaluation_summary (unless_empty w.project_id)) ∷ []) (λ out. elim out [
          | failed e ↦ update (λ v. record v { evaluation = none }) (fails "evaluation.loadError" e)
          | replied (summary, _) ↦ update (λ v. record v { evaluation = some summary }) settles
        ]))

  -- The effect of opening the dialog.
  unfoldable pub open_center : RunCenter → Option Text → Option Text → List Script
  unfolding refresh inspect_run
  open_center w run project =
      update (λ v. record v { project_id = or_default project [] }) (refresh w true project done)
      ∷ elim run [ none ↦ [] | some r ↦ if non_empty r then inspect_run r ∷ [] else [] ]

  -- The scripts that an action starts in the state `w`.
  unfoldable pub scripts_of : RunCenter → Action → List Script
  unfolding open_center refresh inspect_run toggle_selected compare_runs toggle_archive delete_run
      resume_run show_evaluation
  scripts_of w (opened run project) = open_center w run project
  scripts_of w ticked = refresh w false none done ∷ []
  scripts_of w filtered = refresh w false none done ∷ []
  scripts_of w reloaded = refresh w true none done ∷ []
  scripts_of w (inspected run) = inspect_run run ∷ []
  scripts_of w (toggled run) = update (toggle_selected run) done ∷ []
  scripts_of w cleared = update clear_selection done ∷ []
  scripts_of w compared = compare_runs w.selected ∷ []
  scripts_of w archived = toggle_archive w ∷ []
  scripts_of w deleted = delete_run w ∷ []
  scripts_of w resumed = resume_run w ∷ []
  scripts_of w evaluated = show_evaluation w ∷ []
  scripts_of w left_comparison = update (λ v. record v { comparison = none }) done ∷ []
  scripts_of w left_detail = update (λ v. record v { detail = none }) done ∷ []
