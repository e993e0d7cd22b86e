-- ===== src/WorkItems/Tests.antt =====
-- Runs of the filter and the classification on small traces, and their theorems at those traces.
use Prim.Native.String.{String}
use mini_agent_oscoder.Prelude.{
  ◌≡◌, ◌↔◌, refl, true, List, [], ◌∷◌, lit, text_eq, text_eq_refl, trim, All,
}
use mini_agent_oscoder.Json.{
  str, number, obj, Fields, end, field, TraceEvent, property, as_record, get, string_value,
}
use mini_agent_oscoder.WorkItems.{payload_field, action_from, action_name, action_id_from}
use mini_agent_oscoder.WorkItems.Filter.{
  other_step, is_resolving, is_resolved_model_request, is_completing, completed_action_ids,
  is_open_action, is_process_event, shown,
}
use mini_agent_oscoder.WorkItems.Filter.Requests.{IsSettled, is_resolved_model_request_iff}
use mini_agent_oscoder.WorkItems.Filter.Shown.{IsCompleted, shown-not-IsCompleted}

abbrev event_of : String → Fields → TraceEvent
event_of name payload = record { time = lit "t"; event = lit name; payload = payload }

abbrev with_step : String → Fields → Fields
with_step n rest = field (lit "step") (number true (lit n)) rest

abbrev with_action : String → String → Fields → Fields
with_action type id rest =
    field (lit "action")
      (obj (field (lit "type") (str (lit type)) (field (lit "action_id") (str (lit id)) end))) rest

abbrev request : String → TraceEvent
request n = event_of "model.requested" (with_step n end)

abbrev parsed : TraceEvent
parsed = event_of "action.parsed" (with_step "1" (with_action "read_file" "a1" end))

abbrev executed : TraceEvent
executed = event_of "tool.executed" (with_step "1" (with_action "read_file" "a1" end))

abbrev trace : List TraceEvent
trace = request "1" ∷ parsed ∷ executed ∷ request "2" ∷ []

-- The request of the first step is resolved and its action is completed; the last request is live.
shown-trace : shown trace ≡ executed ∷ request "2" ∷ []
unfolding shown is_process_event is_open_action is_resolved_model_request other_step is_resolving
    completed_action_ids is_completing action_id_from action_name action_from payload_field property
    as_record get string_value text_eq lit trim
shown-trace = refl

is_resolved_model_request_iff_example :
    (is_resolved_model_request trace 0 ≡ true)
    ↔ IsSettled (payload_field (request "1") "step") (parsed ∷ executed ∷ request "2" ∷ [])
is_resolved_model_request_iff_example =
    is_resolved_model_request_iff trace 0 {e = request "1"} refl
      (text_eq_refl (lit "model.requested"))

shown-not-IsCompleted_example : All (λ e. ¬ IsCompleted trace e) (shown trace)
shown-not-IsCompleted_example = shown-not-IsCompleted trace
