-- ===== src/Replay/Tests.antt =====
-- A replay of three events, and the theorems at it.
use mini_agent_oscoder.Prelude.{
  ◌≡◌, refl, ◌+◌, ◌-◌, arith, true, false, none, some, [], ◌∷◌, Text, lit, text_eq,
}
use mini_agent_oscoder.Json.{end, TraceEvent}
use mini_agent_oscoder.Replay.{Replay, total_of, semantic_rule}
use mini_agent_oscoder.Replay.Cursor.{ticked, ticked-ends}

abbrev event_named : Text → TraceEvent
event_named name = record { time = lit "t"; event = name; payload = end }

abbrev idle : Replay
idle = record { snapshot = none; cursor = 0; playing = false; loading = false; error = none }

abbrev playing : Replay
playing = record idle {
  snapshot = some (
      event_named (lit "model.requested")
      ∷ event_named (lit "tool.executed")
      ∷ event_named (lit "run.completed")
      ∷ []);
  cursor = 1;
  playing = true;
}

ticked-ends_example :
    ((ticked (total_of playing - 1) playing).playing ≡ false)
    × ((ticked (total_of playing - 1) playing).cursor + 1 ≡ total_of playing)
    × ((ticked (total_of playing - 1) playing).snapshot ≡ playing.snapshot)
ticked-ends_example = ticked-ends playing omega arith refl omega arith

tool-rule : semantic_rule (lit "tool.failed") ≡ some "C-ToolFail"
unfolding semantic_rule text_eq lit
tool-rule = refl
