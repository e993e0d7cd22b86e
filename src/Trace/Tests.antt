-- ===== src/Trace/Tests.antt =====
-- A trace with two answers of one profile, and the theorem at it.
use mini_agent_oscoder.Prelude.{
  ◌≡◌, refl, arith, ◌⊎◌, ℕ, Bool, length, leb, true, [], ◌∷◌, Text, lit, text_eq, map,
}
use mini_agent_oscoder.Json.{get, as_record, number, str, obj, end, field, TraceEvent, property}
use mini_agent_oscoder.Keyed.{HasDistinctKeys}
use mini_agent_oscoder.Trace.{usage_of, summarize_usage, profile_of}
use mini_agent_oscoder.Trace.Usage.{
  IsByCalls, calls_of, tokens_of, call_count, token_sum, summarize_usage-sums,
}

abbrev response : TraceEvent
response = record {
  time = lit "t";
  event = lit "model.responded";
  payload =
      field (lit "response")
        (obj (
          field (lit "model") (str (lit "m")) (
            field (lit "metadata") (obj (field (lit "route_profile") (str (lit "fast")) end)) (
              field (lit "usage") (obj (field (lit "input_tokens") (number true (lit "7")) end))
                end))))
        end;
}

abbrev seven : Text → ℕ
seven printed = 7

abbrev by_length : Text → Text → Bool
by_length a b = leb (length a) (length b)

by_length-total : (a b : Text) → (by_length a b ≡ true) ⊎ (by_length b a ≡ true)
by_length-total a b = ground arith

summarize_usage-sums_example :
    HasDistinctKeys profile_of (summarize_usage by_length seven (response ∷ response ∷ []))
    × IsByCalls by_length (summarize_usage by_length seven (response ∷ response ∷ []))
    × (calls_of (lit "fast") (summarize_usage by_length seven (response ∷ response ∷ []))
        ≡ call_count (lit "fast") (map (usage_of seven) (response ∷ response ∷ [])))
    × (tokens_of (lit "fast") (summarize_usage by_length seven (response ∷ response ∷ []))
        ≡ token_sum (lit "fast") (map (usage_of seven) (response ∷ response ∷ [])))
summarize_usage-sums_example =
    summarize_usage-sums by_length seven (response ∷ response ∷ []) (lit "fast") by_length-total

two_calls : call_count (lit "fast") (map (usage_of seven) (response ∷ response ∷ [])) ≡ 2
unfolding usage_of property text_eq lit get as_record
two_calls = refl
