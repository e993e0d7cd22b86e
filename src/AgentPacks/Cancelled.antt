-- ===== src/AgentPacks/Cancelled.antt =====
-- What the answers leave of the state in frontend/src/run/useAgentPackState.ts.
use mini_agent_oscoder.Prelude.{◌≡◌, refl, ℕ, false, Option, none, some, Text}
use mini_agent_oscoder.Json.{Value}
use mini_agent_oscoder.I18n.{Locale, Tables}
use mini_agent_oscoder.WorkItems.Describe.{Translator}
use mini_agent_oscoder.Scripts.{Outcome, failed, replied, run_script, Ends}
use mini_agent_oscoder.AgentPacks.{
  AgentPackState, PackCall, PackReply, PackAnswers, state_answered, dialog_answered, open_dialog,
  version_shown, version_saved, save_version,
}

abbrev pub StateAnswer : Type 0
StateAnswer = Outcome (Option Value × (Option Value × Unit))

-- What is shown of the answers: a request that failed leaves nothing.
abbrev pub drift_of : StateAnswer → Option Value
drift_of (failed e) = none
drift_of (replied (drift, _)) = drift

abbrev pub protocols_of : StateAnswer → Option Value
protocols_of (failed e) = none
protocols_of (replied (drift, (protocols, _))) = protocols

module _ (daemon : (c : PackCall) → Outcome (PackReply c)) where
  -- The state when the answers to a run of the effect have come.
  abbrev pub after : ℕ → StateAnswer → AgentPackState → AgentPackState
  after run out v = run_script daemon (state_answered run out) v

abbrev pub IsLoaded : AgentPackState → Type 0
IsLoaded v = v.busy ≡ false

abbrev pub IsSaved : AgentPackState → Type 0
IsSaved v = v.version_busy ≡ false

module _ (tables : Tables) (locale : Locale) (t : Translator) where
  dialog_answered-IsLoaded :
      (out : Outcome PackAnswers) (v : AgentPackState)
      → Ends IsLoaded (dialog_answered tables locale t out) v
  unfolding dialog_answered
  dialog_answered-IsLoaded (failed e) v = refl
  dialog_answered-IsLoaded (replied answers) v = refl

  version_shown-IsSaved :
      (out : Outcome PackAnswers) (v : AgentPackState)
      → Ends IsSaved (version_shown tables locale t out) v
  unfolding version_shown
  version_shown-IsSaved (failed e) v = refl
  version_shown-IsSaved (replied answers) v = refl

  version_saved-IsSaved :
      (project mode : Text) (out : Outcome (Value × Unit)) (v : AgentPackState)
      → Ends IsSaved (version_saved tables locale t project mode out) v
  unfolding version_saved
  version_saved-IsSaved project mode (failed e) v = refl
  version_saved-IsSaved project mode (replied _) v = version_shown-IsSaved

  -- Opening the dialog of a project and saving a version of its pack end with the dialog neither loading
  -- nor saving, whichever requests fail and whatever else changes meanwhile.
  pub packs-End :
      (project mode : Text) (w : AgentPackState)
      → Ends IsLoaded (open_dialog tables locale t (some project) mode) w
        × Ends IsSaved (save_version tables locale t (some project) mode) w
  unfolding open_dialog save_version
  packs-End project mode w = (dialog_answered-IsLoaded, version_saved-IsSaved project mode)
