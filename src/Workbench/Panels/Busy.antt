-- ===== src/Workbench/Panels/Busy.antt =====
-- The panels of frontend/src/pages/Workbench.tsx are busy no longer than their actions last.
use Prim.Native.String.{String}
use mini_agent_oscoder.Prelude.{
  Option, none, some, ◌≡◌, refl, Bool, false, inl, inr, Option-cases, Text,
}
use mini_agent_oscoder.Json.{Value}
use mini_agent_oscoder.I18n.{Locale, Tables}
use mini_agent_oscoder.WorkItems.Describe.{Translator}
use mini_agent_oscoder.Workbench.{
  Workbench, Extension, Call, Script, Ends, each, create_memory, update_memory, delete_memory,
}
use mini_agent_oscoder.Workbench.Control.{with_run}
use mini_agent_oscoder.Workbench.Panels.{
  compact, change_memory, create_memory_action, update_memory_action, delete_memory_action,
  save_governance, save_extensions, create_extension,
}

-- An action that begins while `flag` is not set ends so, whatever the daemon answers and whatever
-- else happens while it waits.
abbrev pub Frees : (Workbench → Bool) → Script → Workbench → Type 0
Frees flag s w = flag w ≡ false → Ends (λ v. flag v ≡ false) s w

-- With or without a run.
pub with_run-Ends :
    (P : Workbench → Type 0) (run : Option Text) (k : Text → Script) (w : Workbench)
    → P w
    → ((r : Text) → Ends P (k r) w)
    → Ends P (with_run run k) w
with_run-Ends P none k w h go = h
with_run-Ends P (some r) k w h go = go r

module _ (tables : Tables) (locale : Locale) (t : Translator) where
  compact-Frees :
      (w : Workbench) (ratio : Value) (confirmed : Bool)
      → Frees (λ v. v.context_busy) (compact tables locale t w ratio confirmed) w
  unfolding compact
  compact-Frees w ratio confirmed h = elim (Option-cases w.session.run_id) [
    | inl n ↦ rw (compact, n) h
    | inr (run, e) ↦
        rw (compact, e) (each _ (λ e v. refl) (λ _ _. each _ (λ e v. refl) (λ _ v. refl)))
  ]

  change_memory-Ends :
      (key : String) (run : Text) (call : Call) (w : Workbench)
      → Ends (λ v. v.memory_busy ≡ false) (change_memory tables locale t key run call) w
  unfolding change_memory
  change_memory-Ends key run call w =
      each _ (λ e v. refl) (λ _ _. each _ (λ e v. refl) (λ _ v. refl))

  create_memory_action-Frees :
      (w : Workbench) (input : Value)
      → Frees (λ v. v.memory_busy) (create_memory_action tables locale t w input) w
  unfolding create_memory_action
  create_memory_action-Frees w input h =
      with_run-Ends _ w.session.run_id _ w h
        (λ run. change_memory-Ends "error.memoryWrite" run (create_memory run input) w)

  update_memory_action-Frees :
      (w : Workbench) (memory : Text) (input : Value)
      → Frees (λ v. v.memory_busy) (update_memory_action tables locale t w memory input) w
  unfolding update_memory_action
  update_memory_action-Frees w memory input h =
      with_run-Ends _ w.session.run_id _ w h
        (λ run. change_memory-Ends "error.memoryWrite" run (update_memory run memory input) w)

  delete_memory_action-Frees :
      (w : Workbench) (memory : Text)
      → Frees (λ v. v.memory_busy) (delete_memory_action tables locale t w memory) w
  unfolding delete_memory_action
  delete_memory_action-Frees w memory h =
      with_run-Ends _ w.session.run_id _ w h
        (λ run. change_memory-Ends "error.memoryDelete" run (delete_memory run memory) w)

  save_governance-Frees :
      (w : Workbench) (settings : Value)
      → Frees (λ v. v.governance_busy) (save_governance tables locale t w settings) w
  unfolding save_governance
  save_governance-Frees w settings h =
      with_run-Ends _ w.session.run_id _ w h
        (λ run. each _ (λ e v. refl) (λ _ _. each _ (λ e v. refl) (λ _ v. refl)))

  save_extensions-Frees :
      (w : Workbench) (settings : Value)
      → Frees (λ v. v.extensions_busy) (save_extensions tables locale t w settings) w
  unfolding save_extensions
  save_extensions-Frees w settings h =
      with_run-Ends _ w.session.run_id _ w h
        (λ run. each _ (λ e v. refl) (λ _ _. each _ (λ e v. refl) (λ _ v. refl)))

  create_extension-Frees :
      (extension : Extension) (w : Workbench) (input : Value)
      → Frees (λ v. v.extensions_busy) (create_extension tables locale t extension w input) w
  unfolding create_extension
  create_extension-Frees extension w input h =
      with_run-Ends _ w.session.run_id _ w h
        (λ run. each _ (λ e v. refl) (λ _ _. each _ (λ e v. refl) (λ _ v. refl)))

  -- Every action of a panel that begins while the panel is not busy leaves it so, whatever the
  -- daemon answers, whichever requests fail, and whatever else changes while the action waits.
  pub panels-Frees :
      (w : Workbench) (input : Value) (confirmed : Bool) (memory : Text) (extension : Extension)
      → Frees (λ v. v.context_busy) (compact tables locale t w input confirmed) w
        × Frees (λ v. v.memory_busy) (create_memory_action tables locale t w input) w
        × Frees (λ v. v.memory_busy) (update_memory_action tables locale t w memory input) w
        × Frees (λ v. v.memory_busy) (delete_memory_action tables locale t w memory) w
        × Frees (λ v. v.governance_busy) (save_governance tables locale t w input) w
        × Frees (λ v. v.extensions_busy) (save_extensions tables locale t w input) w
        × Frees (λ v. v.extensions_busy) (create_extension tables locale t extension w input) w
  panels-Frees w input confirmed memory extension = (
    compact-Frees w input confirmed,
    create_memory_action-Frees w input,
    update_memory_action-Frees w memory input,
    delete_memory_action-Frees w memory,
    save_governance-Frees w input,
    save_extensions-Frees w input,
    create_extension-Frees extension w input,
  )
