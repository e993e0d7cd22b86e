-- ===== src/History/Outcomes.antt =====
-- What the actions of frontend/src/components/RunCenter.tsx leave, by what the daemon answers.
use mini_agent_oscoder.Prelude.{
  ◌≡◌, refl, true, false, not, Option, none, some, List, [], ◌∷◌, text_eq, any,
}
use mini_agent_oscoder.Json.{Value}
use mini_agent_oscoder.I18n.{Locale, Tables, localize_error_message}
use mini_agent_oscoder.WorkItems.Describe.{Translator}
use mini_agent_oscoder.Scripts.{Outcome, failed, replied, strict, gather, run_script}
use mini_agent_oscoder.History.{
  HistoryProject, HistoryPage, HistoryCall, HistoryReply, RunCenter, HistoryRunDetail,
  HistoryRunFilters, get_history_projects, get_history_runs, archive_history_run, filters_of,
  kept_detail, show_page, archived_detail,
}
use mini_agent_oscoder.History.Actions.{
  refresh, all_answered, toggle_archive, toggle_archive_of, archive_answered, settles,
}

module _ (daemon : (c : HistoryCall) → Outcome (HistoryReply c)) (tables : Tables) (locale : Locale)
    (t : Translator) where
  abbrev pub listing : HistoryRunFilters → Outcome (List HistoryProject × (HistoryPage × Unit))
  listing filters =
      gather daemon (strict get_history_projects ∷ strict (get_history_runs filters) ∷ [])

  -- What a list that comes, or fails, makes of the detail.
  abbrev pub listed :
      RunCenter
      → Option HistoryRunDetail
      → Outcome (List HistoryProject × (HistoryPage × Unit))
      → Option HistoryRunDetail
  listed w detail (failed e) = detail
  listed w detail (replied (projects, (page, _))) = kept_detail w.detail page.runs detail

  -- All else that a list leaves as it was.
  abbrev IsListing :
      RunCenter
      → RunCenter
      → Outcome (List HistoryProject × (HistoryPage × Unit))
      → RunCenter
      → Type 0
  IsListing w v out u =
      (u.detail ≡ listed w v.detail out) × (u.selected ≡ v.selected) × (u.comparison ≡ v.comparison)

  all_answered-IsListing :
      (w v : RunCenter) (out : Outcome (List HistoryProject × (HistoryPage × Unit)))
      → IsListing w v out
          (run_script daemon (all_answered tables locale t w (settles tables locale t) out) v)
  unfolding all_answered run_script show_page
  all_answered-IsListing w v (failed e) = (refl, refl, refl)
  all_answered-IsListing w v (replied (projects, (page, _))) = (refl, refl, refl)

  refresh-IsListing :
      (w v : RunCenter)
      → IsListing w v
          (listing (filters_of w none))
          (run_script daemon (refresh tables locale t w true none (settles tables locale t)) v)
  unfolding refresh run_script
  refresh-IsListing w v =
      all_answered-IsListing w (record v { loading = true; error = none })
        (listing (filters_of w none))

  -- What a request to delete the run of the detail leaves.
  abbrev pub AfterDelete :
      RunCenter → HistoryRunDetail → Outcome (Value × Unit) → RunCenter → Type 0
  AfterDelete w detail (failed e) u =
      (u.detail ≡ w.detail)
      × (u.selected ≡ w.selected)
      × (u.error ≡ some (localize_error_message tables locale e (t "history.deleteError" [])))
  AfterDelete w detail (replied _) u =
      (u.detail ≡ none)
      × (any (λ item. text_eq item detail.run.run_id) u.selected ≡ false)
      × (u.comparison ≡ none)

  -- What a request to archive the run of the detail, or to restore it, leaves.
  abbrev pub AfterArchive :
      RunCenter → HistoryRunDetail → Outcome (Value × Unit) → RunCenter → Type 0
  AfterArchive w detail (failed e) u =
      (u.detail ≡ w.detail)
      × (u.selected ≡ w.selected)
      × (u.error ≡ some (localize_error_message tables locale e (t "history.archiveError" [])))
  AfterArchive w detail (replied _) u =
      (u.detail
        ≡ listed w (some (archived_detail detail (not detail.run.archived)))
            (listing (filters_of w none)))
      × (u.selected ≡ w.selected)
      × (u.comparison ≡ w.comparison)

  archive_answered-AfterArchive :
      (w : RunCenter) (detail : HistoryRunDetail) (out : Outcome (Value × Unit))
      → AfterArchive w detail out (
          run_script daemon
            (archive_answered tables locale t w detail (not detail.run.archived) out)
            (record w { detail_loading = true }))
  unfolding archive_answered run_script refresh
  archive_answered-AfterArchive w detail (failed e) = (refl, refl, refl)
  archive_answered-AfterArchive w detail (replied answer) = refresh-IsListing w (record w {
    detail_loading = true;
    detail = some (archived_detail detail (not detail.run.archived));
  })

  -- When the run of the detail is archived or restored, the detail shows so, unless a list comes that
  -- holds the run no longer: then none is shown. When the request fails, the detail is as it was. The
  -- selection is as it was in each case.
  pub toggle_archive-AfterArchive :
      (w : RunCenter) (detail : HistoryRunDetail)
      → w.detail ≡ some detail
      → AfterArchive w detail
          (gather daemon
            (strict (archive_history_run detail.run.run_id (not detail.run.archived)) ∷ []))
          (run_script daemon (toggle_archive tables locale t w) w)
  unfolding toggle_archive toggle_archive_of run_script
  toggle_archive-AfterArchive w detail h = simp h (
      archive_answered-AfterArchive w detail (
        gather daemon
          (strict (archive_history_run detail.run.run_id (not detail.run.archived)) ∷ [])))
