-- ===== src/Trace.antt =====
-- frontend/src/components/RuntimePanels.tsx: what the panels sum up of a trace. The same counts stand
-- in frontend/src/components/RuntimeConfigStrip.tsx.
pub mod Usage
mod Tests
use Prim.Native.String.{String}
use mathlib.Core.List.{reverse}
use mini_agent_oscoder.Prelude.{
  ℕ, ◌+◌, Bool, true, false, not, ◌&&◌, ◌||◌, Option, none, some, List, [], ◌∷◌, map, Text, lit,
  text_eq, trim, non_empty, keep, length, ltb, ◌==◌, split_where, starts_with, trim_start, drop,
  or_default, ◌or_else◌, ◌>>=◌, if◌then◌else◌,
}
use mini_agent_oscoder.Json.{
  null, number, str, arr, obj, end, Value, Fields, TraceEvent, property, as_record, array_value,
  get,
}
use mini_agent_oscoder.Sorting.{sort}
use mini_agent_oscoder.Keyed.{put}
use mini_agent_oscoder.Keyed

-- `event.payload.request.metadata`, where each of them is a record.
abbrev record_in : String → Option Fields → Option Fields
record_in key fields = as_record (get fields key)

abbrev is_named : String → TraceEvent → Bool
is_named name event = text_eq event.event (lit name)

-- The layers of the latest request that has some.
abbrev layers_of : TraceEvent → Option (List Value)
layers_of event =
    array_value
      (get (record_in "metadata" (record_in "request" (some event.payload))) "prompt_layers")

first_layers : List TraceEvent → ℕ
first_layers [] = 0
first_layers (event ∷ events) =
    let rest = first_layers events in
    if not (is_named "model.requested" event)
    then rest
    else elim (layers_of event) [ none ↦ rest | some layers ↦ length layers ]

unfoldable pub latest_prompt_layer_count : List TraceEvent → ℕ
unfolding first_layers
latest_prompt_layer_count trace = first_layers (reverse trace)

first_suggestions : List TraceEvent → ℕ
first_suggestions [] = 0
first_suggestions (event ∷ events) =
    let rest = first_suggestions events in
    if not (is_named "memory.written" event)
    then rest
    else elim (array_value (property (lit "recommendations") event.payload)) [
      | none ↦ 0
      | some recommendations ↦ length recommendations
    ]

unfoldable pub latest_memory_suggestion_count : List TraceEvent → ℕ
unfolding first_suggestions
latest_memory_suggestion_count trace = first_suggestions (reverse trace)

pub record RoutedUsage : Type 0 where
  pub profile : Text
  pub model : Text
  pub calls : ℕ
  pub tokens : ℕ

abbrev pub profile_of : RoutedUsage → Text
profile_of u = u.profile

abbrev text_in : Option Fields → String → Option Text
text_in fields key = elim (get fields key) [
  | none ↦ none
  | some v ↦ elim v [ str s ↦ some s | _ ↦ none ]
]

-- `a ?? b` of two fields
abbrev either_field : Option Fields → String → String → Option Value
either_field fields a b = elim (get fields a) [
  | none ↦ get fields b
  | some v ↦ elim v [ null ↦ get fields b | w ↦ some w ]
]

module _ (token_count : Text → ℕ) where
  -- `numberValue`, where `token_count` reads the digits of a number that is a whole one, and gives 0 for
  -- a negative number; tokens are counted in whole numbers.
  abbrev number_value : Option Value → ℕ
  number_value (some (number true printed)) = token_count printed
  number_value _ = 0

  -- What an event of the trace says of the use of a routed model, if it says anything.
  unfoldable pub usage_of : TraceEvent → Option (Text × (Text × ℕ))
  usage_of event =
      if not (is_named "model.responded" event)
      then none
      else let response = record_in "response" (some event.payload) in
        let usage = or_default (record_in "usage" response) end in
        elim (text_in (record_in "metadata" response) "route_profile") [
          | none ↦ none
          | some profile ↦
              if not (non_empty profile)
              then none
              else some (
                profile,
                (
                  or_default (text_in response "model") (lit "-"),
                  number_value (either_field (some usage) "input_tokens" "prompt_tokens")
                      + number_value
                          (either_field (some usage) "output_tokens" "completion_tokens"),
                ),
              )
        ]

abbrev new_usage : Text → Text → RoutedUsage
new_usage profile model = record { profile = profile; model = model; calls = 0; tokens = 0 }

-- The record of a profile after one more event, where `current` is what it was.
unfoldable pub one_more : Option RoutedUsage → Text → Text → ℕ → RoutedUsage
one_more current profile model tokens =
    let was = or_default current (new_usage profile model) in
    record {
      profile = was.profile;
      model = model;
      calls = was.calls + 1;
      tokens = was.tokens + tokens;
    }

-- The record of a profile is changed in its place.
unfoldable pub add_usage : List RoutedUsage → Option (Text × (Text × ℕ)) → List RoutedUsage
unfolding one_more
add_usage usage none = usage
add_usage usage (some (profile, (model, tokens))) =
    put profile_of usage (one_more (Keyed.get profile_of profile usage) profile model tokens)

unfoldable pub add_all : List RoutedUsage → List (Option (Text × (Text × ℕ))) → List RoutedUsage
unfolding add_usage
add_all usage [] = usage
add_all usage (found ∷ rest) = add_all (add_usage usage found) rest

-- The order of the view, where `locale_le a b` is `a.localeCompare(b) <= 0`: what was called more often
-- comes first.
unfoldable pub usage_order : (Text → Text → Bool) → RoutedUsage → RoutedUsage → Bool
usage_order locale_le left right =
    ltb right.calls left.calls
    || (right.calls == left.calls && locale_le left.profile right.profile)

unfoldable pub summarize_usage :
    (Text → Text → Bool) → (Text → ℕ) → List TraceEvent → List RoutedUsage
unfolding usage_of add_all usage_order
summarize_usage locale_le token_count trace =
    sort (usage_order locale_le) (add_all [] (map (usage_of token_count) trace))
