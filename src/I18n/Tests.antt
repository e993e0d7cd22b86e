-- ===== src/I18n/Tests.antt =====
-- Translations with a small table, and the theorems at it.
use mini_agent_oscoder.Prelude.{
  ◌≡◌, refl, some, [], ◌∷◌, lit, text_eq, starts_with, ends_with, includes_i, includes, to_lower,
  lower_unit, trim, trim_start, trim_end, is_space,
}
use mini_agent_oscoder.I18n.{
  Locale, Tables, lookup, find_value, fill_in, replace_all, translate, exact_match,
  normalized_match, normalize_known_text, squeeze, slice_between, memory_scope, composed,
  known_step, translate_known_text, translate_mode, match_incompatible_skill,
  localize_error_message, translate_extension_diagnostic,
}

abbrev tables : Tables
tables = record {
  en = (lit "mode.Chat", lit "Ask") ∷ (lit "status.failed", lit "Failed {n} times, {n}") ∷ [];
  zh = (lit "mode.Chat", lit "问答") ∷ [];
  known = λ _. (lit "Policy denied.", lit "策略拒绝。") ∷ [];
}

-- Punctuation, blanks and case do not matter, and the text inside a known pattern is translated.
nested_text :
    translate_known_text tables Locale.zh
      (lit "Tool requires approval before execution:  policy  DENIED。")
    ≡ lit "工具执行前需要审批：策略拒绝。"
unfolding translate_known_text known_step composed exact_match normalized_match lookup find_value
    normalize_known_text squeeze starts_with ends_with text_eq lit trim trim_start trim_end to_lower
    lower_unit is_space slice_between memory_scope
nested_text = refl

every_place :
    translate tables Locale.en (lit "status.failed") ((lit "n", lit "3") ∷ [])
    ≡ lit "Failed 3 times, 3"
unfolding translate lookup fill_in replace_all starts_with text_eq lit
every_place = refl

skill_message :
    localize_error_message tables Locale.zh
      (some (lit "Skill a is not compatible with mode chat"))
      (lit "x")
    ≡ lit "“a”不适合“问答”任务。请关闭这条项目规则，或切换到适合的任务类型。"
unfolding localize_error_message match_incompatible_skill translate_mode translate lookup fill_in
    includes_i includes starts_with text_eq lit trim trim_start trim_end to_lower lower_unit
    is_space
skill_message = refl

-- The rest of a diagnostic stays as it is.
registry_message :
    translate_extension_diagnostic Locale.zh (lit "MCP registry: bad file") ≡ lit "外部工具目录：bad file"
unfolding translate_extension_diagnostic lookup starts_with text_eq lit
registry_message = refl
