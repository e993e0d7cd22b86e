-- ===== src/Workbench/Review/Buttons.antt =====
-- The buttons of the files dialog over an applied change, and what they start: the hook
-- frontend/src/run/useWorkspaceReview.ts beside frontend/src/components/WorkspaceFilesDialog.tsx.
use mathlib.Core.Option.{some-injective}
use mini_agent_oscoder.Prelude.{
  ◌≡◌, refl, sym, ap, ◌∙◌, if◌then◌else◌, arith, inl, inr, Bool, true, false, Bool-cases, Option,
  none, some, List, ◌∷◌, ◌&&◌, Text, non_empty, or_default,
}
use mini_agent_oscoder.I18n.{Locale, Tables}
use mini_agent_oscoder.Run.Helpers.{
  Checkpoint, DiffArtifacts, has_visible_diff, latest_restorable_checkpoint,
}
use mini_agent_oscoder.WorkItems.Describe.{Translator}
use mini_agent_oscoder.Files.{WorkspaceChangeSet}
use mini_agent_oscoder.Files.Sizes.{
  ReviewActions, ReviewStatus, hidden, disabled, enabled, is_pending, button,
  normalize_review_status, reject_button,
}
use mini_agent_oscoder.Workbench.{Workbench, Call, Daemon, Script, rollback_run, sent}
use mini_agent_oscoder.Workbench.Review.{
  checkpoint_to_restore, rollback_then, is_applied, is_truthy_text, applied_review_actions,
  reject_latest_changes,
}

-- What stands in the actions that the hook hands to the dialog.
record Offered (w : Workbench) (status : Option Text) (recovery : Option (List Checkpoint))
    (actions : ReviewActions) : Type 0 where
  same_status : actions.status ≡ status
  same_busy : actions.busy ≡ is_truthy_text w.rollback_busy
  same_reject : actions.can_reject ≡ some (is_truthy_text (latest_restorable_checkpoint recovery))

applied_review_actions-Offered :
    (w : Workbench) (artifacts : Option DiffArtifacts) (status : Option Text)
    (recovery : Option (List Checkpoint)) (actions : ReviewActions)
    → applied_review_actions w artifacts status recovery ≡ some actions
    → Offered w status recovery actions
unfolding applied_review_actions
applied_review_actions-Offered w artifacts status recovery actions h =
    elim (Bool-cases (is_applied w.session.workspace_change_set && has_visible_diff artifacts)) [
      | inl e ↦
          let q = some-injective _ _ (rw e at h) in
          rw (← q) (record { same_status = refl; same_busy = refl; same_reject = refl })
      | inr e ↦ cc (rw e at h)
    ]

is_pending-status :
    (status : ReviewStatus) → is_pending status ≡ true → status ≡ ReviewStatus.pending
is_pending-status ReviewStatus.pending h = refl
is_pending-status ReviewStatus.accepted h = cc
is_pending-status ReviewStatus.reverted h = cc

enabled_conditions :
    (a b : Bool) → (if a then hidden else if b then disabled else enabled) ≡ enabled → b ≡ false
enabled_conditions true b h = cc
enabled_conditions false true h = cc
enabled_conditions false false h = refl

button-enabled :
    (shown present : Bool) (allowed : Option Bool) (actions : ReviewActions)
    → button shown present allowed actions ≡ enabled
    → (actions.busy ≡ false)
      × (normalize_review_status actions.status ≡ ReviewStatus.pending)
      × (or_default allowed true ≡ true)
button-enabled shown present allowed actions h =
    let free = enabled_conditions _ _ h in
    (
      ground (arith, free),
      is_pending-status (normalize_review_status actions.status) (ground (arith, free)),
      ground (arith, free),
    )

-- A truthy text is there, and not empty.
truthy_text :
    (o : Option Text) → is_truthy_text o ≡ true → (s : Text) × (o ≡ some s) × (non_empty s ≡ true)
truthy_text none h = cc
truthy_text (some s) h = (s, refl, h)

restored :
    (recovery : Option (List Checkpoint)) (id : Text)
    → latest_restorable_checkpoint recovery ≡ some id
    → non_empty id ≡ true
    → checkpoint_to_restore recovery ≡ some id
restored recovery id e n = rw (e, n) refl

module _ (daemon : Daemon) (tables : Tables) (locale : Locale) (t : Translator) where
  rollback_then-sends :
      (run : Option Text) (r checkpoint : Text) (rest : Script)
      → run ≡ some r
      → (more : List Call) × (sent daemon (rollback_then tables locale t run checkpoint rest)
          ≡ rollback_run r checkpoint ∷ more)
  unfolding rollback_then sent
  rollback_then-sends none r checkpoint rest h = cc
  rollback_then-sends (some q) r checkpoint rest h = rw (← some-injective q r h) (_, refl)

  reject-sends :
      (w : Workbench) (recovery : Option (List Checkpoint)) (run id : Text)
      → w.session.run_id ≡ some run
      → checkpoint_to_restore recovery ≡ some id
      → (more : List Call) × (sent daemon (reject_latest_changes tables locale t w recovery)
          ≡ rollback_run run id ∷ more)
  unfolding reject_latest_changes
  reject-sends w recovery run id opened e =
      rw (reject_latest_changes, e) (rollback_then-sends w.session.run_id run id _ opened)

  -- Where the dialog offers to reject an applied change, that is, where its button is there and enabled,
  -- the change has not been reviewed, no way back is under way, and pressing the button first asks the
  -- daemon to roll the run that is open back to the latest checkpoint that can be restored, of which
  -- there is one.
  pub reject_button-restores :
      (w : Workbench) (set : Option WorkspaceChangeSet) (artifacts : Option DiffArtifacts)
      (status : Option Text) (recovery : Option (List Checkpoint)) (actions : ReviewActions)
      (run : Text)
      → w.session.run_id ≡ some run
      → applied_review_actions w artifacts status recovery ≡ some actions
      → reject_button set actions ≡ enabled
      → (checkpoint : Text) × (rest : List Call) × (latest_restorable_checkpoint recovery
          ≡ some checkpoint)
        × (sent daemon (reject_latest_changes tables locale t w recovery)
            ≡ rollback_run run checkpoint ∷ rest)
        × (normalize_review_status status ≡ ReviewStatus.pending)
        × (is_truthy_text w.rollback_busy ≡ false)
  unfolding reject_button
  reject_button-restores w set artifacts status recovery actions run opened shown pressed =
      let offered = applied_review_actions-Offered w artifacts status recovery actions shown in
      let (free, waiting, allowed) =
        button-enabled _ actions.on_reject actions.can_reject actions pressed in
      let (id, latest, named) =
        truthy_text (latest_restorable_checkpoint recovery) (rw (offered.same_reject) at allowed) in
      let (more, sends) =
        reject-sends w recovery run id opened (restored recovery id latest named) in
      (
        id,
        more,
        latest,
        sends,
        ap normalize_review_status (sym offered.same_status) ∙ waiting,
        sym offered.same_busy ∙ free,
      )
