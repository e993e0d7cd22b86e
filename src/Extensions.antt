-- ===== src/Extensions.antt =====
-- frontend/src/components/ExtensionPanel.tsx: the panel of the skills, tool servers and hooks of a run.
pub mod Words
pub mod Ids
pub mod Saves
pub mod Evidence
mod Tests
use mini_agent_oscoder.Prelude.{
  ℕ, ◌+◌, Bool, true, false, not, ◌&&◌, ◌||◌, Option, none, some, List, [], ◌∷◌, ◌++◌, map, Text,
  lit, text_eq, or_default, ◌or_else◌, is_some, any, keep, find, length, trim, non_empty, newline,
  split_where, take, among, ◌==◌, ltb, join, if◌then◌else◌,
}
use mini_agent_oscoder.Json.{Value, TraceEvent, get, array_value, string_value}
use mini_agent_oscoder.I18n.{Locale, Tables, localize_error_message}
use mini_agent_oscoder.WorkItems.Describe.{Translator}
use mini_agent_oscoder.Scripts
use mini_agent_oscoder.Scripts.{Outcome, failed, replied, strict, done, throws, update, await}
use mini_agent_oscoder.Extensions.Words.{split_command}
use mini_agent_oscoder.Extensions.Ids.{extension_id}

pub record ExtensionSettings : Type 0 where
  pub active_skill_ids : List Text
  pub enabled_mcp_server_ids : List Text
  pub enabled_hook_ids : List Text

pub data SettingsKey : Type 0 where
  active_skill_ids enabled_mcp_server_ids enabled_hook_ids : SettingsKey

pub data Creator : Type 0 where
  skill mcp hook : Creator

pub record SkillDraft : Type 0 where
  pub name : Text
  pub description : Text
  pub content : Text

pub record McpDraft : Type 0 where
  pub name : Text
  pub command : Text
  pub env_allow : Text

pub record HookDraft : Type 0 where
  pub name : Text
  pub command : Text
  pub event : Text
  pub failure_policy : Text

pub record ExtensionPanel : Type 0 where
  pub creator : Option Creator
  pub action_error : Option Text
  pub skill_draft : SkillDraft
  pub mcp_draft : McpDraft
  pub hook_draft : HookDraft
  pub settings : ExtensionSettings

pub record CreateSkillRequest : Type 0 where
  pub id : Text
  pub name : Text
  pub description : Text
  pub content : Text
  pub default_tools : List Text
  pub risk : Text

pub record CreateMcpServerRequest : Type 0 where
  pub id : Text
  pub name : Text
  pub command : List Text
  pub env_allow : List Text
  pub timeout_seconds : ℕ
  pub risk : Text

pub record CreateHookRequest : Type 0 where
  pub id : Text
  pub name : Text
  pub event : Text
  pub command : List Text
  pub timeout_seconds : ℕ
  pub failure_policy : Text

-- The callbacks that the workbench passes.
pub data PanelCall : Type 0 where
  on_save : ExtensionSettings → PanelCall
  on_create_skill : CreateSkillRequest → PanelCall
  on_create_mcp_server : CreateMcpServerRequest → PanelCall
  on_create_hook : CreateHookRequest → PanelCall

abbrev pub PanelReply : PanelCall → Type 0
PanelReply _ = Unit

abbrev pub Script : Type 0
Script = Scripts.Script ExtensionPanel PanelCall PanelReply

-- `settings[key].includes(id) ? filter : append`
unfoldable pub toggle_id : Text → List Text → List Text
toggle_id id ids =
    if among ids id then keep (λ value. not (text_eq value id)) ids else ids ++ (id ∷ [])

unfoldable pub toggled : SettingsKey → Text → ExtensionSettings → ExtensionSettings
unfolding toggle_id
toggled active_skill_ids id s = record s { active_skill_ids = toggle_id id s.active_skill_ids }
toggled enabled_mcp_server_ids id s = record s {
  enabled_mcp_server_ids = toggle_id id s.enabled_mcp_server_ids;
}
toggled enabled_hook_ids id s = record s { enabled_hook_ids = toggle_id id s.enabled_hook_ids }

abbrev empty_skill : SkillDraft
empty_skill = record { name = []; description = []; content = [] }

abbrev empty_mcp : McpDraft
empty_mcp = record { name = []; command = []; env_allow = [] }

abbrev empty_hook : HookDraft
empty_hook = record {
  name = [];
  command = [];
  event = lit "run.after";
  failure_policy = lit "warn";
}

abbrev pub reset_skill : ExtensionPanel → ExtensionPanel
reset_skill w = record w { skill_draft = empty_skill }

abbrev pub reset_mcp : ExtensionPanel → ExtensionPanel
reset_mcp w = record w { mcp_draft = empty_mcp }

abbrev pub reset_hook : ExtensionPanel → ExtensionPanel
reset_hook w = record w { hook_draft = empty_hook }

-- `envAllow.split(/[\n,]+/).map((item) => item.trim()).filter(Boolean)`: the pieces between two of a run
-- of separators are empty, and go with the other empty ones.
unfoldable pub env_names : Text → List Text
env_names text = keep non_empty (map trim (split_where (λ c _. c == newline || c == b',') text))

module _ (normalize : Text → Text) (stamp : Text) where
  unfoldable pub skill_request : SkillDraft → CreateSkillRequest
  skill_request draft = record {
    id = extension_id normalize stamp draft.name (lit "project-rule");
    name = trim draft.name;
    description = trim draft.description;
    content = trim draft.content;
    default_tools = lit "read_file" ∷ lit "search_code" ∷ lit "write_patch" ∷ lit "run_test" ∷ [];
    risk = lit "medium";
  }

  unfoldable pub mcp_request : McpDraft → CreateMcpServerRequest
  unfolding env_names
  mcp_request draft = record {
    id = extension_id normalize stamp draft.name (lit "tool-service");
    name = trim draft.name;
    command = split_command draft.command;
    env_allow = env_names draft.env_allow;
    timeout_seconds = 15;
    risk = lit "high";
  }

  unfoldable pub hook_request : HookDraft → CreateHookRequest
  hook_request draft = record {
    id = extension_id normalize stamp draft.name (lit "automatic-check");
    name = trim draft.name;
    event = draft.event;
    command = split_command draft.command;
    timeout_seconds = 30;
    failure_policy = draft.failure_policy;
  }

abbrev pub set_action_error : Option Text → ExtensionPanel → ExtensionPanel
set_action_error e w = record w { action_error = e }

module _ (tables : Tables) (locale : Locale) (t : Translator) where
  abbrev pub action_failed : Option Text → ExtensionPanel → ExtensionPanel
  action_failed e =
      set_action_error
        (some (localize_error_message tables locale e (t "extensions.actionFailed" [])))

  unfoldable pub saved : ExtensionSettings → Outcome (Unit × Unit) → Script
  saved previous (failed e) =
      update (λ v. record v { settings = previous }) (update (action_failed e) done)
  saved previous (replied _) = done

  -- `toggle`
  unfoldable pub toggle : ExtensionPanel → SettingsKey → Text → Script
  unfolding saved toggled
  toggle w key id =
      let next = toggled key id w.settings in
      update (λ v. record v { action_error = none; settings = next })
        (await (strict (on_save next) ∷ []) (saved w.settings))

  -- The three `create…`, with the `catch` of their forms: what was typed stays when a request fails.
  unfoldable pub created : (ExtensionPanel → ExtensionPanel) → Outcome (Unit × Unit) → Script
  created reset (failed e) = update (action_failed e) done
  created reset (replied _) = update (λ v. record (reset v) { creator = none }) done

  unfoldable pub create_skill : (Text → Text) → Text → ExtensionPanel → Script
  unfolding created
  create_skill normalize stamp w = update (set_action_error none) (
      await (strict (on_create_skill (skill_request normalize stamp w.skill_draft)) ∷ [])
        (created reset_skill))

  unfoldable pub create_mcp_server : (Text → Text) → Text → ExtensionPanel → Script
  unfolding created
  create_mcp_server normalize stamp w = update (set_action_error none) (
      await (strict (on_create_mcp_server (mcp_request normalize stamp w.mcp_draft)) ∷ [])
        (created reset_mcp))

  unfoldable pub create_hook : (Text → Text) → Text → ExtensionPanel → Script
  unfolding created
  create_hook normalize stamp w = update (set_action_error none) (
      await (strict (on_create_hook (hook_request normalize stamp w.hook_draft)) ∷ [])
        (created reset_hook))

-- The buttons that open a form, and close it again.
abbrev same_creator : Creator → Creator → Bool
same_creator a b = elim a [
  | skill ↦ elim b [ skill ↦ true | mcp ↦ false | hook ↦ false ]
  | mcp ↦ elim b [ skill ↦ false | mcp ↦ true | hook ↦ false ]
  | hook ↦ elim b [ skill ↦ false | mcp ↦ false | hook ↦ true ]
]

unfoldable pub open_creator : Creator → ExtensionPanel → ExtensionPanel
open_creator c w = elim w.creator [
  | none ↦ record w { creator = some c }
  | some d ↦ record w { creator = if same_creator c d then none else some c }
]

-- Whether the button of a form is enabled.
unfoldable pub can_submit : Bool → Creator → ExtensionPanel → Bool
can_submit busy skill w =
    not busy
    && non_empty (trim w.skill_draft.name)
    && not (ltb (length (trim w.skill_draft.content)) 10)
can_submit busy mcp w =
    not busy && non_empty (trim w.mcp_draft.name) && non_empty (trim w.mcp_draft.command)
can_submit busy hook w =
    not busy && non_empty (trim w.hook_draft.name) && non_empty (trim w.hook_draft.command)
