-- ===== src/Workbench/Control/Discard.antt =====
-- The action of frontend/src/pages/Workbench.tsx that gives up a run before it is launched.
use mini_agent_oscoder.Prelude.{◌≡◌, refl, inl, inr, false, Option-cases}
use mini_agent_oscoder.I18n.{Locale, Tables}
use mini_agent_oscoder.WorkItems.Describe.{Translator}
use mini_agent_oscoder.Workbench.{Workbench, Ends, each}
use mini_agent_oscoder.Workbench.Control.{discard_prepared_run}

module _ (tables : Tables) (locale : Locale) (t : Translator) where
  -- Giving up a prepared run leaves the workbench not busy, on every branch.
  discard_prepared_run-idle :
      (w : Workbench)
      → w.busy ≡ false
      → Ends (λ v. v.busy ≡ false) (discard_prepared_run tables locale t w) w
  unfolding discard_prepared_run
  discard_prepared_run-idle w h = elim (Option-cases w.session.run_id) [
    | inl n ↦ rw (discard_prepared_run, n) h
    | inr (run, e) ↦ rw (discard_prepared_run, e) (each _ (λ e v. refl) (λ _ v. refl))
  ]
