-- ===== src/History/Waiting.antt =====
-- The flags of loading in frontend/src/components/RunCenter.tsx, at the end of an action.
use mini_agent_oscoder.Prelude.{
  ◌≡◌, refl, Bool, true, false, Option, none, some, List, [], ◌∷◌, Text,
}
use mini_agent_oscoder.I18n.{Locale, Tables}
use mini_agent_oscoder.WorkItems.Describe.{Translator}
use mini_agent_oscoder.Scripts.{Outcome, failed, replied, done, each, Ends}
use mini_agent_oscoder.History.{RunCenter, HistoryRunDetail, Script, HistoryProject, HistoryPage}
use mini_agent_oscoder.History.Actions.{
  archive_answered, delete_answered, refresh, all_answered, runs_answered, inspect_run,
  compare_pair, compare_runs, toggle_archive, toggle_archive_of, delete_run, delete_run_of,
  resume_run, resume_run_of, show_evaluation, with_detail, settles,
}

abbrev pub IsListed : RunCenter → Type 0
IsListed v = v.loading ≡ false

abbrev pub IsSettled : RunCenter → Type 0
IsSettled v = v.detail_loading ≡ false

module _ (tables : Tables) (locale : Locale) (t : Translator) where
  all_answered-IsListed :
      (w : RunCenter) (out : Outcome (List HistoryProject × (HistoryPage × Unit))) (v : RunCenter)
      → Ends IsListed (all_answered tables locale t w done out) v
  unfolding all_answered
  all_answered-IsListed w (failed e) v = refl
  all_answered-IsListed w (replied (projects, (page, _))) v = refl

  runs_answered-IsListed :
      (w : RunCenter) (out : Outcome (HistoryPage × Unit)) (v : RunCenter)
      → Ends IsListed (runs_answered tables locale t w done out) v
  unfolding runs_answered
  runs_answered-IsListed w (failed e) v = refl
  runs_answered-IsListed w (replied (page, _)) v = refl

  refresh-IsListed :
      (w v : RunCenter) (load_projects : Bool) (override : Option Text)
      → Ends IsListed (refresh tables locale t w load_projects override done) v
  unfolding refresh
  refresh-IsListed w v true override = all_answered-IsListed w
  refresh-IsListed w v false override = runs_answered-IsListed w

  all_answered-IsSettled :
      (w : RunCenter) (out : Outcome (List HistoryProject × (HistoryPage × Unit))) (v : RunCenter)
      → Ends IsSettled (all_answered tables locale t w (settles tables locale t) out) v
  unfolding all_answered
  all_answered-IsSettled w (failed e) v = refl
  all_answered-IsSettled w (replied (projects, (page, _))) v = refl

  with_detail-IsSettled :
      (w : RunCenter) (k : HistoryRunDetail → Script) (detail : Option HistoryRunDetail)
      → IsSettled w
      → ((d : HistoryRunDetail) → Ends IsSettled (k d) w)
      → Ends IsSettled (with_detail tables locale t detail k) w
  with_detail-IsSettled w k none s h = s
  with_detail-IsSettled w k (some d) s h = h d

  compare_runs-IsSettled :
      (w : RunCenter) (selected : List Text)
      → IsSettled w
      → Ends IsSettled (compare_runs tables locale t selected) w
  unfolding compare_runs compare_pair
  compare_runs-IsSettled w [] s = s
  compare_runs-IsSettled w (a ∷ []) s = s
  compare_runs-IsSettled w (a ∷ b ∷ []) s = each _ (λ e v. refl) (λ _ v. refl)
  compare_runs-IsSettled w (a ∷ b ∷ c ∷ xs) s = s

  -- An action on a run that begins while no detail is loading leaves it so, on every branch, whichever
  -- requests fail and whatever else changes meanwhile; and so does a refresh with the list, whether
  -- the list was loading or not.
  pub actions-IsSettled :
      (w : RunCenter) (run : Text) (load_projects : Bool) (override : Option Text)
      → IsSettled w
      → Ends IsListed (refresh tables locale t w load_projects override done) w
        × Ends IsSettled (inspect_run tables locale t run) w
        × Ends IsSettled (compare_runs tables locale t w.selected) w
        × Ends IsSettled (toggle_archive tables locale t w) w
        × Ends IsSettled (delete_run tables locale t w) w
        × Ends IsSettled (resume_run tables locale t w) w
        × Ends IsSettled (show_evaluation tables locale t w) w
  unfolding inspect_run toggle_archive toggle_archive_of archive_answered delete_run delete_run_of
      delete_answered refresh resume_run resume_run_of show_evaluation
  actions-IsSettled w run load_projects override s = (
    refresh-IsListed w w load_projects override,
    each _ (λ e v. refl) (λ _ v. refl),
    compare_runs-IsSettled w w.selected s,
    with_detail-IsSettled w _ w.detail s
        (λ d. each _ (λ e v. refl) (λ _ v. all_answered-IsSettled w)),
    with_detail-IsSettled w _ w.detail s
        (λ d. each _ (λ e v. refl) (λ _ v. all_answered-IsSettled w)),
    with_detail-IsSettled w _ w.detail s (λ d. each _ (λ e v. refl) (λ _ v. refl)),
    each _ (λ e v. refl) (λ _ v. refl),
  )
