-- ===== src/Extensions/Tests.antt =====
-- A panel with one skill that is on, and the theorems at it.
use mathlib.Core.List.{reverse}
use mini_agent_oscoder.Prelude.{
  ◌≡◌, refl, is_space, ◌+◌, ◌≤◌, arith, true, none, some, List, [], ◌∷◌, Text, lit, length, find,
}
use mini_agent_oscoder.Json.{str, end, field, TraceEvent}
use mini_agent_oscoder.I18n.{Tables}
use mini_agent_oscoder.WorkItems.Describe.{Translator}
use mini_agent_oscoder.Scripts.{Outcome, failed}
use mini_agent_oscoder.Extensions.{ExtensionPanel, Creator, PanelCall, PanelReply}
use mini_agent_oscoder.Extensions.Evidence.{
  looked_up, evidence_by_target, is_about, evidence_by_target-latest,
}
use mini_agent_oscoder.Extensions.Words.{split_command, spaced, split_command-spaced}
use mini_agent_oscoder.Extensions.Ids.{extension_id, starts_lower, is_slug, extension_id-is_slug}

abbrev tables : Tables
tables = record { en = []; zh = []; known = λ _. [] }

abbrev keys : Translator
keys key table = lit key

abbrev panel : ExtensionPanel
panel = record {
  creator = some Creator.skill;
  action_error = none;
  skill_draft = record { name = lit "Rules!"; description = []; content = lit "Be brief." };
  mcp_draft = record { name = []; command = []; env_allow = [] };
  hook_draft = record { name = []; command = []; event = []; failure_policy = [] };
  settings = record {
    active_skill_ids = lit "a" ∷ [];
    enabled_mcp_server_ids = [];
    enabled_hook_ids = [];
  };
}

abbrev broken : (c : PanelCall) → Outcome (PanelReply c)
broken c = failed none

-- Quotes go when they are all around a word, and so does one that is not closed.
split_command-quotes :
    split_command (lit "run \"a b\" --x=\"y z\" don't")
    ≡ lit "run" ∷ lit "a b" ∷ lit "--x=\"y z\"" ∷ lit "don" ∷ lit "t" ∷ []
unfolding split_command lit is_space
split_command-quotes = refl

split_command-spaced_example :
    split_command (spaced (lit "npm run" ∷ lit "test" ∷ [])) ≡ lit "npm run" ∷ lit "test" ∷ []
unfolding lit
split_command-spaced_example =
    split_command-spaced (lit "npm run" ∷ lit "test" ∷ []) (refl, (refl, tt))

extension_id-is_slug_example :
    (starts_lower (extension_id (λ s. s) (lit "ab12c") (lit "Rules!") (lit "project-rule")) ≡ true)
    × (is_slug (extension_id (λ s. s) (lit "ab12c") (lit "Rules!") (lit "project-rule")) ≡ true)
    × (length (extension_id (λ s. s) (lit "ab12c") (lit "Rules!") (lit "project-rule"))
        ≤ 49 + length (lit "ab12c"))
unfolding lit
extension_id-is_slug_example =
    extension_id-is_slug (λ s. s) (lit "ab12c") (lit "Rules!") (lit "project-rule") refl refl refl
      omega arith

abbrev skill_event : Text → TraceEvent
skill_event time = record {
  time = time;
  event = lit "skill.activated";
  payload = field (lit "skill_id") (str (lit "a")) end;
}

abbrev evidence : List TraceEvent
evidence = skill_event (lit "t1") ∷ skill_event (lit "t2") ∷ []

evidence_by_target-latest_example :
    looked_up (lit "a") (evidence_by_target (λ _. []) evidence)
    ≡ find (is_about (λ _. []) (lit "a")) (reverse evidence)
evidence_by_target-latest_example = evidence_by_target-latest (λ _. []) evidence (lit "a")
