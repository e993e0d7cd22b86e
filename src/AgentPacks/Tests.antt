-- ===== src/AgentPacks/Tests.antt =====
-- The theorems about the agent pack at a state of two runs of the effect.
use mini_agent_oscoder.Prelude.{false, none, [], lit}
use mini_agent_oscoder.I18n.{Tables}
use mini_agent_oscoder.WorkItems.Describe.{Translator}
use mini_agent_oscoder.Scripts.{Outcome, failed}
use mini_agent_oscoder.AgentPacks.{AgentPackState, PackCall, PackReply}

abbrev tables : Tables
tables = record { en = []; zh = []; known = λ _. [] }

abbrev keys : Translator
keys key table = lit key

abbrev offline : (c : PackCall) → Outcome (PackReply c)
offline c = failed none

abbrev pack : AgentPackState
pack = record {
  is_open = false;
  busy = false;
  version_busy = false;
  error = none;
  manifest = none;
  versions = [];
  drift = none;
  protocols = none;
  effect_runs = 2;
}
