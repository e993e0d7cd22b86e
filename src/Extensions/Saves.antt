-- ===== src/Extensions/Saves.antt =====
-- The settings of frontend/src/components/ExtensionPanel.tsx as sets, and what a save leaves.
use mini_agent_oscoder.Prelude.{
  ◌≡◌, refl, ap, arith, inl, inr, Bool, true, not, ◌&&◌, ◌||◌, Bool-cases, none, some, List, [],
  ◌∷◌, ◌++◌, Text, text_eq, text_eq_comm, eq_of_text_eq, keep, among, if◌then◌else◌,
}
use mini_agent_oscoder.I18n.{Locale, Tables, localize_error_message}
use mini_agent_oscoder.WorkItems.Describe.{Translator}
use mini_agent_oscoder.Scripts.{Outcome, failed, replied, strict, gather, run_script}
use mini_agent_oscoder.Extensions.{
  ExtensionSettings, SettingsKey, ExtensionPanel, PanelCall, PanelReply, on_save, toggle_id,
  toggled, saved, toggle, on_create_skill, on_create_mcp_server, on_create_hook, skill_request,
  mcp_request, hook_request, created, reset_skill, reset_mcp, reset_hook, create_skill,
  create_mcp_server, create_hook,
}

among-keep :
    (id x : Text) (ids : List Text)
    → among (keep (λ value. not (text_eq value id)) ids) x ≡ (among ids x && not (text_eq x id))
among-keep id x [] = refl
among-keep id x (y ∷ ids) =
    ground (arith, among-keep id x ids, eq_of_text_eq x y, text_eq_comm x id, text_eq_comm y id)

among-append :
    (id x : Text) (ids : List Text) → among (ids ++ (id ∷ [])) x ≡ (among ids x || text_eq x id)
among-append id x [] = ground arith
among-append id x (y ∷ ids) = ground (arith, among-append id x ids)

abbrev pub differs : Bool → Bool → Bool
differs a b = if a then not b else b

among-same : (id x : Text) (ids : List Text) → text_eq x id ≡ true → among ids x ≡ among ids id
among-same id x ids h = ap (among ids) (eq_of_text_eq x id h)

-- A switch changes whether its own extension is among those that are on, and no other.
pub toggle_id-among :
    (id x : Text) (ids : List Text)
    → among (toggle_id id ids) x ≡ differs (text_eq x id) (among ids x)
unfolding toggle_id
toggle_id-among id x ids = elim (Bool-cases (among ids id)) [
  | inl e ↦ rw (toggle_id, e) (ground (arith, among-keep id x ids, e, among-same id x ids))
  | inr e ↦ rw (toggle_id, e) (ground (arith, among-append id x ids, e, among-same id x ids))
]

module _ (daemon : (c : PanelCall) → Outcome (PanelReply c)) (tables : Tables) (locale : Locale)
    (t : Translator) where
  -- What a save of a changed switch leaves.
  abbrev pub AfterSave :
      ExtensionPanel → ExtensionSettings → Outcome (Unit × Unit) → ExtensionPanel → Type 0
  AfterSave w next (failed e) v =
      (v.settings ≡ w.settings)
      × (v.action_error
          ≡ some (localize_error_message tables locale e (t "extensions.actionFailed" [])))
  AfterSave w next (replied _) v = (v.settings ≡ next) × (v.action_error ≡ none)

  saved-AfterSave :
      (w : ExtensionPanel) (next : ExtensionSettings) (out : Outcome (Unit × Unit))
      → AfterSave w next out (
          run_script daemon
            (saved tables locale t w.settings out)
            (record w { action_error = none; settings = next }))
  unfolding saved run_script
  saved-AfterSave w next (failed e) = (refl, refl)
  saved-AfterSave w next (replied _) = (refl, refl)

  -- A switch that is saved shows what was saved; when the save fails, all settings are as they were
  -- before, under the message of the error.
  pub toggle-AfterSave :
      (w : ExtensionPanel) (key : SettingsKey) (id : Text)
      → AfterSave w
          (toggled key id w.settings)
          (gather daemon (strict (on_save (toggled key id w.settings)) ∷ []))
          (run_script daemon (toggle tables locale t w key id) w)
  unfolding toggle run_script
  toggle-AfterSave w key id =
      saved-AfterSave w (toggled key id w.settings)
        (gather daemon (strict (on_save (toggled key id w.settings)) ∷ []))

  -- What is left of the form of a skill.
  abbrev pub AfterCreate : ExtensionPanel → Outcome (Unit × Unit) → ExtensionPanel → Type 0
  AfterCreate w (failed e) v =
      (v.skill_draft ≡ w.skill_draft)
      × (v.mcp_draft ≡ w.mcp_draft)
      × (v.hook_draft ≡ w.hook_draft)
      × (v.creator ≡ w.creator)
      × (v.action_error
          ≡ some (localize_error_message tables locale e (t "extensions.actionFailed" [])))
  AfterCreate w (replied _) v = (v.creator ≡ none) × (v.action_error ≡ none)

  created-AfterCreate :
      (w : ExtensionPanel) (reset : ExtensionPanel → ExtensionPanel) (out : Outcome (Unit × Unit))
      → ((v : ExtensionPanel) → (reset v).action_error ≡ v.action_error)
      → AfterCreate w out
          (run_script daemon (created tables locale t reset out) (record w { action_error = none }))
  unfolding created run_script
  created-AfterCreate w reset (failed e) h = (refl, refl, refl, refl, refl)
  created-AfterCreate w reset (replied _) h = (refl, h (record w { action_error = none }))

  -- A form that creates a skill, a tool server or a hook is closed and no error is shown when the
  -- extension has been created; when the request fails, every form is as it was, the form stays open
  -- and the message of the error is shown.
  pub creates-AfterCreate :
      (normalize : Text → Text) (stamp : Text) (w : ExtensionPanel)
      → AfterCreate w
          (gather daemon
            (strict (on_create_skill (skill_request normalize stamp w.skill_draft)) ∷ []))
          (run_script daemon (create_skill tables locale t normalize stamp w) w)
        × AfterCreate w
            (gather daemon
              (strict (on_create_mcp_server (mcp_request normalize stamp w.mcp_draft)) ∷ []))
            (run_script daemon (create_mcp_server tables locale t normalize stamp w) w)
        × AfterCreate w
            (gather daemon
              (strict (on_create_hook (hook_request normalize stamp w.hook_draft)) ∷ []))
            (run_script daemon (create_hook tables locale t normalize stamp w) w)
  unfolding create_skill create_mcp_server create_hook run_script
  creates-AfterCreate normalize stamp w = (
    created-AfterCreate w reset_skill _ (λ v. refl),
    created-AfterCreate w reset_mcp _ (λ v. refl),
    created-AfterCreate w reset_hook _ (λ v. refl),
  )
