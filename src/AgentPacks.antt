-- ===== src/AgentPacks.antt =====
-- frontend/src/run/useAgentPackState.ts: the agent pack of a project. The effect that loads what drifted
-- and the protocols runs when the project or the mode changes; the cleanup of a run comes before the
-- next one, so a run is cancelled exactly when it is not the last, and `effect_runs` counts them.
pub mod Cancelled
mod Tests
use Prim.Native.String.{String}
use mini_agent_oscoder.Prelude.{
  ℕ, suc, Bool, true, false, Option, none, some, List, [], ◌∷◌, Text, ◌==◌, if◌then◌else◌,
}
use mini_agent_oscoder.Json.{Value}
use mini_agent_oscoder.I18n.{Locale, Tables, localize_error_message}
use mini_agent_oscoder.WorkItems.Describe.{Translator}
use mini_agent_oscoder.Scripts
use mini_agent_oscoder.Scripts.{Outcome, failed, replied, strict, optional, done, update, await}

pub record AgentPackState : Type 0 where
  pub is_open : Bool
  pub busy : Bool
  pub version_busy : Bool
  pub error : Option Text
  pub manifest : Option Value
  pub versions : List Value
  pub drift : Option Value
  pub protocols : Option Value
  pub effect_runs : ℕ

pub data PackCall : Type 0 where
  get_agent_pack get_agent_pack_drift save_agent_pack_version : (project mode : Text) → PackCall
  get_agent_pack_versions get_project_protocols : (project : Text) → PackCall

abbrev pub PackReply : PackCall → Type 0
PackReply (get_agent_pack_versions _) = List Value
PackReply _ = Value

abbrev pub Script : Type 0
Script = Scripts.Script AgentPackState PackCall PackReply

-- `if (cancelled) return`
abbrev pub unless_cancelled :
    ℕ → (AgentPackState → AgentPackState) → AgentPackState → AgentPackState
unless_cancelled run f v = if v.effect_runs == run then f v else v

abbrev show_state : Option Value → Option Value → AgentPackState → AgentPackState
show_state drift protocols v = record v { drift = drift; protocols = protocols }

unfoldable pub state_answered : ℕ → Outcome (Option Value × (Option Value × Unit)) → Script
state_answered run (failed e) = update (unless_cancelled run (show_state none none)) done
state_answered run (replied (drift, (protocols, _))) =
    update (unless_cancelled run (show_state drift protocols)) done

-- The effect, as it runs in the state `w`.
unfoldable pub load_state : Option Text → Text → AgentPackState → Script
unfolding state_answered
load_state none mode w =
    update
      (λ v. record v {
        manifest = none;
        versions = [];
        error = none;
        drift = none;
        protocols = none;
        effect_runs = suc w.effect_runs;
      })
      done
load_state (some project) mode w =
    update
      (λ v. record v {
        manifest = none;
        versions = [];
        error = none;
        effect_runs = suc w.effect_runs;
      })
      (await
        (optional (get_agent_pack_drift project mode)
          ∷ optional (get_project_protocols project)
          ∷ [])
        (state_answered (suc w.effect_runs)))

-- The three requests whose answers `openDialog` and `saveVersion` show.
abbrev pub PackAnswers : Type 0
PackAnswers = Value × (List Value × (Value × Unit))

abbrev show_pack : PackAnswers → AgentPackState → AgentPackState
show_pack (manifest, (versions, (drift, _))) v = record v {
  manifest = some manifest;
  versions = versions;
  drift = some drift;
}

module _ (tables : Tables) (locale : Locale) (t : Translator) where
  abbrev show_error : String → Option Text → AgentPackState → AgentPackState
  show_error key e v = record v { error = some (localize_error_message tables locale e (t key [])) }

  unfoldable pub dialog_answered : Outcome PackAnswers → Script
  dialog_answered (failed e) =
      update (show_error "agentPack.loadError" e) (update (λ v. record v { busy = false }) done)
  dialog_answered (replied answers) =
      update (show_pack answers) (update (λ v. record v { busy = false }) done)

  -- `openDialog`, and `refresh`
  unfoldable pub open_dialog : Option Text → Text → Script
  unfolding dialog_answered
  open_dialog none mode = done
  open_dialog (some project) mode =
      update (λ v. record v { is_open = true; busy = true; error = none })
        (await
          (strict (get_agent_pack project mode)
            ∷ strict (get_agent_pack_versions project)
            ∷ strict (get_agent_pack_drift project mode)
            ∷ [])
          dialog_answered)

  -- The end of `saveVersion`.
  unfoldable pub version_shown : Outcome PackAnswers → Script
  version_shown (failed e) =
      update (show_error "agentPack.saveError" e)
        (update (λ v. record v { version_busy = false }) done)
  version_shown (replied answers) =
      update (show_pack answers) (update (λ v. record v { version_busy = false }) done)

  unfoldable pub version_saved : Text → Text → Outcome (Value × Unit) → Script
  unfolding version_shown
  version_saved project mode (failed e) =
      update (show_error "agentPack.saveError" e)
        (update (λ v. record v { version_busy = false }) done)
  version_saved project mode (replied _) =
      await
        (strict (get_agent_pack project mode)
          ∷ strict (get_agent_pack_versions project)
          ∷ strict (get_agent_pack_drift project mode)
          ∷ [])
        version_shown

  unfoldable pub save_version : Option Text → Text → Script
  unfolding version_saved
  save_version none mode = done
  save_version (some project) mode =
      update (λ v. record v { version_busy = true; error = none })
        (await (strict (save_agent_pack_version project mode) ∷ []) (version_saved project mode))

-- `closeDialog`
abbrev pub close_dialog : AgentPackState → AgentPackState
close_dialog v = record v { is_open = false }
