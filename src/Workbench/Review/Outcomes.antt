-- ===== src/Workbench/Review/Outcomes.antt =====
-- How the ways back of frontend/src/run/useWorkspaceReview.ts end.
use mini_agent_oscoder.Prelude.{◌≡◌, refl, inl, inr, Option, none, some, Option-cases, List, Text}
use mini_agent_oscoder.I18n.{Locale, Tables}
use mini_agent_oscoder.Run.Helpers.{Checkpoint}
use mini_agent_oscoder.WorkItems.Describe.{Translator}
use mini_agent_oscoder.Workbench.{Workbench, Script, done, update, on_session, Ends, each}
use mini_agent_oscoder.Workbench.Control.{with_run}
use mini_agent_oscoder.Session.{Resource, fetch, request}
use mini_agent_oscoder.Workbench.Review.{
  checkpoint_to_restore, rollback_then, rollback_to_checkpoint, reject_latest_changes,
}

abbrev IsFree : Workbench → Type 0
IsFree v = v.rollback_busy ≡ none

module _ (tables : Tables) (locale : Locale) (t : Translator) where
  rollback_then-Ends :
      (run : Option Text) (w : Workbench) (checkpoint : Text) (rest : Script)
      → IsFree w
      → ((v : Workbench) → IsFree v → Ends IsFree rest v)
      → Ends IsFree (rollback_then tables locale t run checkpoint rest) w
  unfolding rollback_then
  rollback_then-Ends none w checkpoint rest h go = go w h
  rollback_then-Ends (some run) w checkpoint rest h go =
      each _ (λ e v. go _ refl) (λ _ _. each _ (λ e v. go _ refl) (λ _ v. go _ refl))

  refetch-Ends :
      (run : Option Text) (v : Workbench)
      → IsFree v
      → Ends IsFree
          (with_run run (λ r. update (on_session (request (fetch r Resource.artifacts))) done))
          v
  refetch-Ends none v h = h
  refetch-Ends (some r) v h = h

  reject-Ends :
      (w : Workbench) (recovery : Option (List Checkpoint))
      → IsFree w
      → Ends IsFree (reject_latest_changes tables locale t w recovery) w
  unfolding reject_latest_changes
  reject-Ends w recovery h = elim (Option-cases (checkpoint_to_restore recovery)) [
    | inl n ↦ rw (reject_latest_changes, n) h
    | inr (checkpoint, e) ↦
        rw (reject_latest_changes, e)
          (rollback_then-Ends w.session.run_id w checkpoint _ h (refetch-Ends w.session.run_id))
  ]

  -- A way back, to a given checkpoint or to the latest that can be restored, that begins while none
  -- is under way leaves none under way, whichever requests fail and whatever else changes meanwhile.
  pub rollback-Ends :
      (w : Workbench) (checkpoint : Text) (recovery : Option (List Checkpoint))
      → w.rollback_busy ≡ none
      → Ends (λ v. v.rollback_busy ≡ none) (rollback_to_checkpoint tables locale t w checkpoint) w
        × Ends (λ v. v.rollback_busy ≡ none) (reject_latest_changes tables locale t w recovery) w
  unfolding rollback_to_checkpoint
  rollback-Ends w checkpoint recovery h =
      (rollback_then-Ends w.session.run_id w checkpoint done h (λ v k. k), reject-Ends w recovery h)
