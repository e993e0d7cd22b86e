-- ===== src/Workbench/Panels.antt =====
-- frontend/src/pages/Workbench.tsx: the actions of the panels, on the context, the memory, the
-- governance and the extensions of a run.
pub mod Busy
use Prim.Native.String.{String}
use mini_agent_oscoder.Prelude.{Bool, true, false, Option, none, some, List, [], ◌∷◌, Text, lit}
use mini_agent_oscoder.Json.{Value, TraceEvent}
use mini_agent_oscoder.I18n.{Locale, Tables}
use mini_agent_oscoder.Session.{Session, PanelTarget}
use mini_agent_oscoder.WorkItems.Describe.{Translator}
use mini_agent_oscoder.Workbench.{
  Workbench, Call, compact_context, get_context, get_checkpoints, get_evidence, get_admission,
  get_model_route, get_memory, create_memory, update_memory, delete_memory, update_governance,
  update_extensions, Extension, create_part, get_trace, get_formal_program, Reply, Outcome, failed,
  replied, Ask, strict, Replies, Script, done, throws, update, await, on_session, set_error,
  show_error,
}
use mini_agent_oscoder.Workbench.Control.{with_run}

abbrev pub set_context_busy : Bool → Workbench → Workbench
set_context_busy b w = record w { context_busy = b }

abbrev pub set_memory_busy : Bool → Workbench → Workbench
set_memory_busy b w = record w { memory_busy = b }

abbrev pub set_governance_busy : Bool → Workbench → Workbench
set_governance_busy b w = record w { governance_busy = b }

abbrev pub set_extensions_busy : Bool → Workbench → Workbench
set_extensions_busy b w = record w { extensions_busy = b }

-- `openControlPlaneTarget`
unfoldable pub open_control_plane_target : PanelTarget → Workbench → Workbench
open_control_plane_target target w =
    on_session (λ s. record s { runtime_panel_target = target; runtime_details_open = true }) w

-- `useFollowUpSuggestion`, without the focus.
unfoldable pub use_follow_up_suggestion : Text → Workbench → Workbench
use_follow_up_suggestion message w = on_session (λ s. record s { follow_up_task = message }) w

module _ (tables : Tables) (locale : Locale) (t : Translator) where
  -- An action with `try`, `catch` and `finally`: it is busy, awaits the answers of the daemon, and
  -- shows a failure and throws it on, or goes on with what was answered.
  abbrev pub awaiting :
      (Bool → Workbench → Workbench) → String → (asks : List Ask) → (Replies asks → Script) → Script
  awaiting set_busy key asks k = await asks (λ out. elim out [
    | failed e ↦ update (show_error tables locale t key e) (update (set_busy false) throws)
    | replied answers ↦ k answers
  ])

  abbrev pub begin : (Bool → Workbench → Workbench) → Script → Script
  begin set_busy rest = update (λ v. set_error none (set_busy true v)) rest

  abbrev pub finally : (Bool → Workbench → Workbench) → (Workbench → Workbench) → Script
  finally set_busy f = update f (update (set_busy false) done)

  -- Without a run, `compactContext` throws.
  unfoldable pub compact : Workbench → Value → Bool → Script
  compact w target_ratio confirmed = elim w.session.run_id [
    | none ↦ throws
    | some run ↦ begin set_context_busy (
        awaiting set_context_busy "error.compactContext"
          (strict (compact_context run target_ratio confirmed) ∷ [])
          (λ _.
            awaiting set_context_busy "error.compactContext"
              (strict (get_context run)
                ∷ strict (get_checkpoints run)
                ∷ strict (get_evidence run)
                ∷ strict (get_admission run)
                ∷ strict (get_model_route run)
                ∷ [])
              (λ (context, (recovery, (evidence, (admission, (route, _))))).
                finally set_context_busy (
                  on_session (λ s. record s {
                    context_pack = some context;
                    recovery = some recovery;
                    evidence = some evidence;
                    admission = some admission;
                    model_route = some route;
                  })))))
  ]

  -- A change of the memory, and `refreshMemory` behind it.
  change_memory : String → Text → Call → Script
  change_memory key run call = begin set_memory_busy (
      awaiting set_memory_busy key (strict call ∷ []) (λ _.
        awaiting set_memory_busy key (strict (get_memory run) ∷ []) (λ (memory, _).
          finally set_memory_busy (on_session (λ s. record s { memory = some memory })))))

  unfoldable pub create_memory_action : Workbench → Value → Script
  unfolding change_memory
  create_memory_action w input =
      with_run w.session.run_id
        (λ run. change_memory "error.memoryWrite" run (create_memory run input))

  unfoldable pub update_memory_action : Workbench → Text → Value → Script
  unfolding change_memory
  update_memory_action w memory input =
      with_run w.session.run_id
        (λ run. change_memory "error.memoryWrite" run (update_memory run memory input))

  unfoldable pub delete_memory_action : Workbench → Text → Script
  unfolding change_memory
  delete_memory_action w memory =
      with_run w.session.run_id
        (λ run. change_memory "error.memoryDelete" run (delete_memory run memory))

  -- `settings` holds the profile and the overrides.
  unfoldable pub save_governance : Workbench → Value → Script
  save_governance w settings = with_run w.session.run_id (λ run. begin set_governance_busy (
      awaiting set_governance_busy "error.governanceWrite"
        (strict (update_governance run settings) ∷ [])
        (λ (governance, _).
          awaiting set_governance_busy "error.governanceWrite"
            (strict (get_trace run) ∷ strict (get_formal_program run) ∷ [])
            (λ (trace, (program, _)). finally set_governance_busy (
              on_session (λ s. record s {
                governance = some governance;
                formal_program = some program;
                trace_events = trace;
              }))))))

  unfoldable pub save_extensions : Workbench → Value → Script
  save_extensions w settings = with_run w.session.run_id (λ run. begin set_extensions_busy (
      awaiting set_extensions_busy "error.extensionsWrite"
        (strict (update_extensions run settings) ∷ [])
        (λ (extensions, _).
          awaiting set_extensions_busy "error.extensionsWrite"
            (strict (get_trace run)
              ∷ strict (get_admission run)
              ∷ strict (get_model_route run)
              ∷ strict (get_formal_program run)
              ∷ [])
            (λ (trace, (admission, (route, (program, _)))). finally set_extensions_busy (
              on_session (λ s. record s {
                extensions = some extensions;
                formal_program = some program;
                trace_events = trace;
                admission = some admission;
                model_route = some route;
              }))))))

  -- `createSkill`, `createMCPServer` and `createHook`.
  unfoldable pub create_extension : Extension → Workbench → Value → Script
  create_extension extension w input = with_run w.session.run_id (λ run. begin set_extensions_busy (
      awaiting set_extensions_busy "error.extensionsWrite"
        (strict (create_part extension run input) ∷ [])
        (λ (extensions, _).
          awaiting set_extensions_busy "error.extensionsWrite"
            (strict (get_formal_program run) ∷ [])
            (λ (program, _). finally set_extensions_busy (
              on_session
                (λ s. record s { extensions = some extensions; formal_program = some program }))))))
