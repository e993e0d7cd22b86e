-- ===== src/Workbench/Review.antt =====
-- frontend/src/run/useWorkspaceReview.ts: the files and changes of a run, their acceptance and the
-- way back to a checkpoint, as scripts of the workbench.
pub mod Outcomes
pub mod Buttons
use Prim.Native.String.{String}
use mini_agent_oscoder.Prelude.{
  Bool, true, false, ◌&&◌, Option, none, some, List, [], ◌∷◌, Text, lit, text_eq, is_some,
  or_default, non_empty, ◌>>=◌, if◌then◌else◌,
}
use mini_agent_oscoder.Json.{
  Value, null, str, number, obj, Fields, field, TraceEvent, as_record, get,
}
use mini_agent_oscoder.I18n.{Locale, Tables}
use mini_agent_oscoder.Run.Helpers.{
  Checkpoint, DiffArtifacts, has_visible_diff, latest_restorable_checkpoint,
}
use mini_agent_oscoder.Files.Sizes.{ReviewActions}
use mini_agent_oscoder.Session.{Session, Resource, fetch, request}
use mini_agent_oscoder.Session.Loading.{close_workspace_files}
use mini_agent_oscoder.WorkItems.{ChangeKind, WorkItemChangeSet}
use mini_agent_oscoder.WorkItems.Describe.{Translator}
use mini_agent_oscoder.Workbench.{
  Workbench, get_checkpoints, get_artifacts, get_trace, get_report, get_evidence, rollback_run,
  accept_changes, Outcome, failed, replied, Ask, strict, Script, done, update, await, on_session,
  set_error, project_id_of, refresh_runs, show_error,
}
use mini_agent_oscoder.Workbench.Control.{with_run}

unfoldable pub open_workspace_files : Workbench → Workbench
open_workspace_files w =
    if is_some w.project
    then on_session (λ s. record s { workspace_change_set = none; workspace_files_open = true }) w
    else w

unfoldable pub open_pending_changes : WorkItemChangeSet → Workbench → Workbench
open_pending_changes changes w =
    on_session (λ s. record s { workspace_change_set = some changes; workspace_files_open = true })
      w

-- A number, printed, or a text, of a property.
abbrev printed : Option Value → Text
printed (some (number _ s)) = s
printed (some (str s)) = s
printed _ = []

unfoldable pub open_artifact_changes : Translator → Workbench → Workbench
open_artifact_changes t w =
    let artifacts = as_record w.session.artifacts in
    elim (as_record (get artifacts "diff_summary")) [
      | none ↦ w
      | some diff ↦
          open_pending_changes
            (record {
              title = t "workspaceFiles.appliedChanges" [];
              patch = printed (get (as_record (get artifacts "diff_preview")) "content");
              changed_files = [];
              focus_path = none;
              focus_hunk = none;
              insertions = printed (get (some diff) "insertions");
              deletions = printed (get (some diff) "deletions");
              kind = ChangeKind.applied;
            })
            w
    ]

abbrev pub set_rollback_busy : Option Text → Workbench → Workbench
set_rollback_busy b w = record w { rollback_busy = b }

-- What `refreshRunReviewState` awaits and shows.
abbrev pub review_asks : Text → List Ask
review_asks run =
    strict (get_checkpoints run)
    ∷ strict (get_artifacts run)
    ∷ strict (get_trace run)
    ∷ strict (get_report run)
    ∷ strict (get_evidence run)
    ∷ []

abbrev pub show_review : Value → Value → List TraceEvent → Value → Value → Session → Session
show_review recovery artifacts trace report evidence s = record s {
  recovery = some recovery;
  artifacts = some artifacts;
  trace_events = trace;
  report = some report;
  evidence = some evidence;
}

-- `{ ...artifacts, change_review: review }`: the property is set in its place, or else at the end.
set_property : Text → Value → Fields → Fields
set_property key v Fields.end = field key v Fields.end
set_property key v (field name old fields) =
    if text_eq name key then field key v fields else field name old (set_property key v fields)

unfoldable pub with_review : Value → Option Value → Value
unfolding set_property
with_review (obj fields) review =
    obj (set_property (lit "change_review") (or_default review null) fields)
with_review other review = obj (field (lit "change_review") (or_default review null) Fields.end)

-- The latest checkpoint, where its id is not empty.
abbrev pub checkpoint_to_restore : Option (List Checkpoint) → Option Text
checkpoint_to_restore recovery =
    latest_restorable_checkpoint recovery >>= (λ id. if non_empty id then some id else none)

abbrev pub is_applied : Option WorkItemChangeSet → Bool
is_applied none = false
is_applied (some set) = elim set.kind [ ChangeKind.pending ↦ false | ChangeKind.applied ↦ true ]

-- `Boolean(s)` of a text that may be missing
abbrev pub is_truthy_text : Option Text → Bool
is_truthy_text none = false
is_truthy_text (some s) = non_empty s

-- `appliedReviewActions`, where `status` is that of the review of the artifacts.
unfoldable pub applied_review_actions :
    Workbench
    → Option DiffArtifacts
    → (status : Option Text) → Option (List Checkpoint)
    → Option ReviewActions
applied_review_actions w artifacts status recovery =
    if is_applied w.session.workspace_change_set && has_visible_diff artifacts
    then some (record {
      status = status;
      busy = is_truthy_text w.rollback_busy;
      can_accept = some true;
      can_reject = some (is_truthy_text (latest_restorable_checkpoint recovery));
      on_accept = true;
      on_reject = true;
    })
    else none

module _ (tables : Tables) (locale : Locale) (t : Translator) where
  abbrev pub review_failed : String → Option Text → Script → Script
  review_failed key e rest =
      update (show_error tables locale t key e) (update (set_rollback_busy none) rest)

  -- `rollbackToCheckpoint` of the run that is open, and what its caller does when it has ended.
  unfoldable pub rollback_then : Option Text → Text → Script → Script
  rollback_then none checkpoint rest = rest
  rollback_then (some run) checkpoint rest =
      update (λ v. set_error none (set_rollback_busy (some checkpoint) v))
        (await (strict (rollback_run run checkpoint) ∷ []) (λ out. elim out [
          | failed e ↦ review_failed "error.rollback" e rest
          | replied _ ↦ await (review_asks run) (λ latest. elim latest [
            | failed e ↦ review_failed "error.rollback" e rest
            | replied (recovery, (artifacts, (trace, (report, (evidence, _))))) ↦
                update (on_session (show_review recovery artifacts trace report evidence))
                  (update (set_rollback_busy none) rest)
          ])
        ]))

  unfoldable pub rollback_to_checkpoint : Workbench → Text → Script
  unfolding rollback_then
  rollback_to_checkpoint w checkpoint = rollback_then w.session.run_id checkpoint done

  -- The checkpoints are those of the recovery that is shown.
  unfoldable pub reject_latest_changes : Workbench → Option (List Checkpoint) → Script
  unfolding rollback_then
  reject_latest_changes w recovery = elim (checkpoint_to_restore recovery) [
    | none ↦ done
    | some checkpoint ↦ rollback_then w.session.run_id checkpoint (
        with_run w.session.run_id
          (λ run. update (on_session (request (fetch run Resource.artifacts))) done))
  ]

  -- The report and the evidence are awaited when the action itself has ended.
  abbrev show_results_late : Outcome (Value × (Value × Unit)) → Script
  show_results_late (failed e) = done
  show_results_late (replied (report, (evidence, _))) =
      update (on_session (λ s. record s { report = some report; evidence = some evidence })) done

  unfoldable pub accept_latest_changes : Workbench → Script
  unfolding with_review
  accept_latest_changes w = with_run w.session.run_id (λ run.
      update (λ v. set_error none (set_rollback_busy (some (lit "accept")) v))
        (await (strict (accept_changes run) ∷ []) (λ out. elim out [
          | failed e ↦ review_failed "error.acceptChanges" e done
          | replied (response, _) ↦ await (strict (get_artifacts run) ∷ []) (λ found. elim found [
            | failed e ↦ review_failed "error.acceptChanges" e done
            | replied (artifacts, _) ↦
                update
                  (on_session (λ s. record s {
                    artifacts =
                        some
                          (with_review artifacts (get (as_record (some response)) "change_review"));
                  }))
                  (await (strict (get_trace run) ∷ []) (λ traced. elim traced [
                    | failed e ↦ review_failed "error.acceptChanges" e done
                    | replied (trace, _) ↦
                        update
                          (λ v. set_rollback_busy none (
                            refresh_runs (project_id_of w.project)
                              (on_session (λ s. record s { trace_events = trace }) v)))
                          (await (strict (get_report run) ∷ strict (get_evidence run) ∷ [])
                            show_results_late)
                  ]))
          ])
        ])))
