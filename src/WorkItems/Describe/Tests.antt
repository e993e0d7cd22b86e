-- ===== src/WorkItems/Describe/Tests.antt =====
-- An approval and a test run, described with a translator that shows its keys and variables.
use mini_agent_oscoder.Prelude.{
  ◌≡◌, refl, [], ◌∷◌, ◌++◌, Text, lit, text_eq, trim, trim_start, trim_end, is_space,
}
use mini_agent_oscoder.Json.{
  str, obj, end, field, TraceEvent, property, string_value, get, as_record, first_present,
}
use mini_agent_oscoder.I18n.{Table, Tables, squeeze}
use mini_agent_oscoder.WorkItems.{
  payload_field, action_from, action_name, action_params, approval_from, target_from, metadata_from,
  result_from,
}
use mini_agent_oscoder.WorkItems.Describe.{Translator, compact_text, executed_title}

abbrev variables : Table → Text
variables [] = []
variables ((name, value) ∷ rest) = b' ' ∷ (name ++ b'=' ∷ (value ++ variables rest))

abbrev shown_key : Translator
shown_key key table = lit key ++ variables table

abbrev tables : Tables
tables = record { en = []; zh = []; known = λ _. [] }

abbrev run_test_event : TraceEvent
run_test_event = record {
  time = lit "t";
  event = lit "tool.executed";
  payload =
      field (lit "action")
        (obj (
          field (lit "type") (str (lit "run_test"))
            (field (lit "params") (obj (field (lit "cmd") (str (lit "pytest  -q")) end)) end)))
        (field (lit "result") (obj (field (lit "output") (str (lit "2 passed")) end)) end);
}

title-run_test :
    executed_title shown_key run_test_event ≡ lit "activity.title.runTests command=pytest -q"
unfolding executed_title lit text_eq property payload_field action_from action_name action_params
    result_from metadata_from approval_from target_from compact_text squeeze is_space trim
    trim_start trim_end string_value get as_record first_present
title-run_test = refl

abbrev approval_event : TraceEvent
approval_event = record {
  time = lit "t";
  event = lit "approval.requested";
  payload =
      field (lit "approval")
        (obj (
          field (lit "target")
            (obj (
              field (lit "tool") (str (lit "apply_patch"))
                (field (lit "patch") (str (lit "@@ -1 +1 @@")) end)))
            end))
        end;
}
