-- ===== src/Workbench/Control.antt =====
-- frontend/src/pages/Workbench.tsx: cancelling, steering and discarding a run, and the answers to
-- its requests for approval.
pub mod Discard
use Prim.Native.String.{String}
use mini_agent_oscoder.Prelude.{
  Bool, true, false, Option, none, some, List, [], ◌∷◌, Text, lit, text_eq, is_some, if◌then◌else◌,
}
use mini_agent_oscoder.Json.{Value, str, TraceEvent, as_record, get}
use mini_agent_oscoder.I18n.{Locale, Tables}
use mini_agent_oscoder.Session.{Session, request}
use mini_agent_oscoder.Session.Loading.{reset_run_state}
use mini_agent_oscoder.Run.ViewModel.{run_is_prepared}
use mini_agent_oscoder.WorkItems.Describe.{Translator}
use mini_agent_oscoder.Workbench.{
  Workbench, cancel_run, get_report, get_evidence, get_governance, get_extensions,
  get_formal_program, get_trace, get_conversation, steer_run, approve_action, deny_action, Outcome,
  failed, replied, strict, Replies, Script, done, throws, update, await, on_session, set_error,
  project_id_of, refresh_runs, show_error,
}

-- `approval.approval_id`
abbrev pub approval_id : Value → Option Value
approval_id approval = get (as_record (some approval)) "approval_id"

-- `… === "apply_patch"`
abbrev is_patch_text : Option Value → Bool
is_patch_text (some (str s)) = text_eq s (lit "apply_patch")
is_patch_text _ = false

unfoldable pub approves_patch : Value → Bool
approves_patch approval =
    is_patch_text (get (as_record (get (as_record (some approval)) "target")) "tool")

-- `if (!runId) return;`
abbrev pub with_run : Option Text → (Text → Script) → Script
with_run none k = done
with_run (some run) k = k run

abbrev pub with_approval : Option Value → (Value → Script) → Script
with_approval none k = done
with_approval (some approval) k = k approval

abbrev pub set_busy : Bool → Workbench → Workbench
set_busy b w = record w { busy = b }

abbrev pub set_approval_busy : Bool → Workbench → Workbench
set_approval_busy b w = record w { approval_busy = b }

abbrev pub set_steering_busy : Bool → Workbench → Workbench
set_steering_busy b w = on_session (λ s. record s { steering_busy = b }) w

abbrev pub set_status : Text → Workbench → Workbench
set_status status w = on_session (λ s. record s { run_status = status }) w

-- `setApproval(null); setRunStatus(status);`
abbrev pub decided : Text → Workbench → Workbench
decided status w = on_session (λ s. record s { approval = none; run_status = status }) w

-- The parts of the view that the end of a cancelled run renews.
abbrev pub show_results :
    Value → Value → Value → Value → Value → List TraceEvent → Value → Workbench → Workbench
show_results report evidence governance extensions program trace conversation w =
    on_session
      (λ s. record s {
        report = some report;
        evidence = some evidence;
        governance = some governance;
        extensions = some extensions;
        formal_program = some program;
        trace_events = trace;
        conversation = some conversation;
      })
      w

module _ (tables : Tables) (locale : Locale) (t : Translator) where
  abbrev show_cancel_error : Option Text → Script
  show_cancel_error e = update (show_error tables locale t "error.cancelRun" e) done

  unfoldable pub cancel_run_action : Workbench → Script
  cancel_run_action w = with_run w.session.run_id (λ run.
      await (strict (cancel_run run) ∷ []) (λ out. elim out [
        | failed e ↦ show_cancel_error e
        | replied (status, _) ↦ update (set_status status) (
            if text_eq status (lit "cancelled")
            then await
                (strict (get_report run)
                  ∷ strict (get_evidence run)
                  ∷ strict (get_governance run)
                  ∷ strict (get_extensions run)
                  ∷ strict (get_formal_program run)
                  ∷ strict (get_trace run)
                  ∷ strict (get_conversation run)
                  ∷ [])
                (λ results. elim results [
                  | failed e ↦ show_cancel_error e
                  | replied
                        (
                          report,
                          (
                            evidence,
                            (governance, (extensions, (program, (trace, (conversation, _))))),
                          ),
                        ) ↦
                      update
                        (show_results report evidence governance extensions program trace
                          conversation)
                        done
                ])
            else done)
      ]))

  unfoldable pub steer_run_action : Workbench → Text → Script
  steer_run_action w message = with_run w.session.run_id (λ run.
      update (λ v. set_error none (set_steering_busy true v))
        (await (strict (steer_run run message) ∷ []) (λ out. elim out [
          | failed e ↦
              update (show_error tables locale t "error.steerRun" e)
                (update (set_steering_busy false) throws)
          | replied _ ↦
              update (if is_some w.session.approval then decided (lit "repairing") else λ v. v)
                (update (set_steering_busy false) done)
        ])))

  unfoldable pub discard_prepared_run : Workbench → Script
  discard_prepared_run w = with_run w.session.run_id (λ run.
      update (λ v. set_error none (set_busy true v))
        (await (strict (cancel_run run) ∷ []) (λ out. elim out [
          | failed e ↦
              update (show_error tables locale t "error.cancelRun" e) (update (set_busy false) done)
          | replied _ ↦
              update
                (λ v. refresh_runs (project_id_of w.project) (on_session (reset_run_state false) v))
                (update (set_busy false) done)
        ])))

  unfoldable pub start_new_task : Workbench → Script
  unfolding discard_prepared_run
  start_new_task w =
      if run_is_prepared w.session.run_id w.session.run_status
      then discard_prepared_run w
      else update (on_session (reset_run_state true)) done

  -- What follows the answer to an approval.
  unfoldable pub approve_answered : Value → Outcome (Value × Unit) → Script
  unfolding approves_patch
  approve_answered approval (failed e) =
      update (show_error tables locale t "error.approveAction" e)
        (update (set_approval_busy false) done)
  approve_answered approval (replied _) =
      update (decided (if approves_patch approval then lit "applying_patch" else lit "running"))
        (update (set_approval_busy false) done)

  unfoldable pub approve : Workbench → Script
  unfolding approve_answered
  approve w = with_run w.session.run_id (λ run. with_approval w.session.approval (λ approval.
      update (λ v. set_error none (set_approval_busy true v))
        (await (strict (approve_action run (approval_id approval)) ∷ [])
          (approve_answered approval))))

  unfoldable pub deny_answered : Outcome (Value × Unit) → Script
  deny_answered (failed e) =
      update (show_error tables locale t "error.denyAction" e)
        (update (set_approval_busy false) done)
  deny_answered (replied _) =
      update (decided (lit "repairing")) (update (set_approval_busy false) done)

  unfoldable pub deny : Workbench → Text → Script
  unfolding deny_answered
  deny w reason = with_run w.session.run_id (λ run. with_approval w.session.approval (λ approval.
      update (λ v. set_error none (set_approval_busy true v))
        (await (strict (deny_action run (approval_id approval) reason) ∷ []) deny_answered)))

-- `changeProject`; no list of runs is the empty one.
unfoldable pub change_project : Workbench → Script
change_project w =
    update
      (λ v. record (on_session (λ s. record (reset_run_state true s) { recent_runs = none }) v) {
        project = none;
        workspace_path = [];
        model_status = none;
        model_config = none;
      })
      done
