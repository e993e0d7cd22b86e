-- ===== src/WorkItems/Describe/Localized.antt =====
-- The words of the feed that translate what the daemon says: the chips, the reasons, the previews and
-- the summaries of frontend/src/activity/workItems.ts.
use mini_agent_oscoder.Prelude.{
  not, ◌&&◌, ◌||◌, Option, none, some, List, [], ◌∷◌, ◌++◌, Text, lit, text_eq, if◌then◌else◌,
  ◌or_else◌, or_default,
}
use mini_agent_oscoder.Decimal.{print}
use mini_agent_oscoder.Json.{
  Value, Fields, TraceEvent, as_record, get, string_value, number_value, array_value, first_present,
}
use mini_agent_oscoder.I18n.{Locale, Tables, is_zh, filled, translate_known_text}
use mini_agent_oscoder.WorkItems.{
  result_from, target_from, metadata_from, request_from, response_from, assessment_from,
  evaluation_from, action_name, action_params, name_in,
}
use mini_agent_oscoder.WorkItems.Describe.{
  Translator, compact_text, is_internal_field_error, contains_cjk, label_value, is_built_in_action,
  path_keys, query_keys, file_count,
}

-- One chip, where its text is there.
chip : (Text → Text) → Option Text → List Text
chip f none = []
chip f (some text) = f text ∷ []

diff_chip : Translator → Option Text → Option Text → List Text
diff_chip t none none = []
diff_chip t additions deletions =
    t "activity.diffStat" (
      (lit "additions", or_default additions (lit "0"))
      ∷ (lit "deletions", or_default deletions (lit "0"))
      ∷ [])
    ∷ []

module _ (tables : Tables) (locale : Locale) where
  unfoldable pub activity_chips : TraceEvent → Translator → List Text
  unfolding chip diff_chip
  activity_chips e t =
      let params = action_params e in
      let metadata = metadata_from e in
      let target = target_from e in
      let response = response_from e in
      let name = action_name e in
      let model =
        string_value (get (request_from e) "model") or_else string_value (get response "model") in
      let tokens = number_value (get (as_record (get response "usage")) "total_tokens") in
      let command =
        first_present params ("command" ∷ "cmd" ∷ [])
        or_else (string_value (get metadata "command")
            or_else string_value (get target "command")) in
      let files = file_count (get metadata "files") or_else file_count (get target "files") in
      let additions =
        number_value (get metadata "additions") or_else number_value (get target "additions") in
      let deletions =
        number_value (get metadata "deletions") or_else number_value (get target "deletions") in
      let known = translate_known_text tables locale in
      chip (λ s. label_value (t "activity.modelLabel" []) (known s)) model
      ++ (chip (λ s. t "activity.tokenCount" ((lit "count", s) ∷ [])) tokens
          ++ (elim name [
            | none ↦ []
            | some s ↦
                if not (is_built_in_action s)
                then label_value (t "activity.toolLabel" []) (known s) ∷ []
                else []
          ]
              ++ (chip (λ s. label_value (t "activity.commandLabel" []) (compact_text s 72)) command
                  ++ (chip (λ s. label_value (t "activity.fileLabel" []) (compact_text s 64))
                        (first_present params path_keys)
                      ++ (chip (λ s. label_value (t "activity.queryLabel" []) (compact_text s 64))
                            (first_present params query_keys)
                          ++ (elim files [
                            | none ↦ []
                            | some n ↦ t "activity.fileCount" ((lit "count", print n) ∷ []) ∷ []
                          ]
                              ++ diff_chip t additions deletions))))))

  unfoldable pub localized_rationale : Text → Option Text
  localized_rationale rationale =
      let translated = translate_known_text tables locale rationale in
      let same = text_eq translated rationale in
      if is_zh locale && same && not (contains_cjk rationale)
      then none
      else if not (is_zh locale) && same && contains_cjk rationale
      then none
      else some translated

  unfoldable pub rationale_detail : Option Text → Text → Translator → Text
  unfolding localized_rationale
  rationale_detail none fallback t = fallback
  rationale_detail (some rationale) fallback t = elim (filled (localized_rationale rationale)) [
    | none ↦ fallback
    | some localized ↦ t "activity.reasonPrefix" ((lit "reason", compact_text localized 150) ∷ [])
  ]

  unfoldable pub output_preview : TraceEvent → Option Text
  output_preview e =
      let result = result_from e in
      elim (string_value (get result "error") or_else string_value (get result "output")) [
        | none ↦ none
        | some output ↦
            if is_internal_field_error output || name_in (action_name e) ("read_file" ∷ [])
            then none
            else some (compact_text (translate_known_text tables locale output) 420)
      ]

  -- A text of the daemon, translated and shortened, or else the fallback.
  abbrev pub summary_of : Option Text → Text → Text
  summary_of none fallback = fallback
  summary_of (some s) fallback = compact_text (translate_known_text tables locale s) 180

  unfoldable pub assessment_summary : TraceEvent → Text → Text
  assessment_summary e fallback =
      summary_of (string_value (get (assessment_from e) "summary")) fallback

  -- The last of the decisions that is a record.
  last_record : List Value → Option Fields
  last_record [] = none
  last_record (v ∷ vs) = last_record vs or_else as_record (some v)

  unfoldable pub policy_summary : TraceEvent → Text → Text
  unfolding last_record
  policy_summary e fallback =
      let decisions = or_default (array_value (get (evaluation_from e) "decisions")) [] in
      summary_of (string_value (get (last_record decisions) "reason")) fallback
