-- ===== src/I18n.antt =====
-- frontend/src/i18n.ts: the functions that translate. The tables `en`, `zh` and `knownText` are data,
-- and a parameter: what the functions do does not depend on their entries. A table is looked up by
-- its own entries; the members that every JavaScript object inherits are left out.
pub mod Known
mod Tests
use mini_agent_oscoder.Prelude.{
  ℕ, zero, suc, ◌-◌, ◌≡◌, Bool, true, false, not, ◌&&◌, ◌||◌, Option, none, some, List, [], ◌∷◌,
  ◌++◌, map, Text, lit, text_eq, starts_with, ends_with, includes_i, to_lower, trim, non_empty,
  is_space, leb, ◌==◌, any, find, drop, take, length, if◌then◌else◌, ◌or_else◌, or_default, is_some,
}
use mini_agent_oscoder.Diff.{is_terminator}

pub data Locale : Type 0 where
  zh en : Locale

abbrev pub is_zh : Locale → Bool
is_zh Locale.zh = true
is_zh Locale.en = false

abbrev pub Table : Type 0
Table = List (Text × Text)

pub record Tables : Type 0 where
  pub en : Table
  pub zh : Table
  pub known : Locale → Table

-- `table[key]`
unfoldable pub lookup : Text → Table → Option Text
lookup key [] = none
lookup key ((k, v) ∷ table) = if text_eq k key then some v else lookup key table

-- `Object.entries(table).find(([key]) => test(key))?.[1]`
unfoldable pub find_value : (Text → Bool) → Table → Option Text
find_value test [] = none
find_value test ((k, v) ∷ table) = if test k then some v else find_value test table

-- Nothing, or an empty text: what `if (value)` refuses.
abbrev pub filled : Option Text → Option Text
filled none = none
filled (some []) = none
filled (some (c ∷ s)) = some (c ∷ s)

-- `value.split(pattern).join(replacement)`, with the units of a found pattern that are still to be
-- passed over; the patterns are not empty.
replace_from : Text → Text → ℕ → Text → Text
replace_from pattern replacement skip [] = []
replace_from pattern replacement (suc skip) (c ∷ s) = replace_from pattern replacement skip s
replace_from pattern replacement zero (c ∷ s) = elim (starts_with (c ∷ s) pattern) [
  | true ↦ replacement ++ replace_from pattern replacement (length pattern - 1) s
  | false ↦ c ∷ replace_from pattern replacement zero s
]

unfoldable pub replace_all : Text → Text → Text → Text
unfolding replace_from
replace_all pattern replacement value = replace_from pattern replacement 0 value

unfoldable pub fill_in : Table → Text → Text
unfolding replace_all
fill_in [] value = value
fill_in ((name, replacement) ∷ variables) value =
    fill_in variables (replace_all (b'{' ∷ (name ++ b'}' ∷ [])) replacement value)

abbrev pub replace_punctuation : ℕ → ℕ
replace_punctuation c = if c == 0xff0c || c == 0x3001 then b',' else if c == 0x3002 then b'.' else c

abbrev starts_blank : Text → Bool
starts_blank [] = false
starts_blank (c ∷ s) = c == 32

-- `value.replace(/\s+/g, " ")`
unfoldable pub squeeze : Text → Text
squeeze [] = []
squeeze (c ∷ s) =
    let rest = squeeze s in
    if is_space c then if starts_blank rest then rest else 32 ∷ rest else c ∷ rest

unfoldable pub normalize_known_text : Text → Text
unfolding squeeze
normalize_known_text value = to_lower (trim (squeeze (map replace_punctuation value)))

-- `value.slice(from, -to)`
unfoldable pub slice_between : ℕ → ℕ → Text → Text
slice_between from to value = take ((length value - to) - from) (drop from value)

unfoldable pub memory_scope : Text → Text
memory_scope scope =
    if text_eq scope (lit "long_term")
    then lit "长期"
    else if text_eq scope (lit "project")
    then lit "项目"
    else scope

module _ (tables : Tables) where
  -- The type of a key keeps it in both tables.
  unfoldable pub translate : Locale → Text → Table → Text
  unfolding lookup fill_in
  translate locale key variables =
      fill_in variables (or_default (lookup key (if is_zh locale then tables.zh else tables.en)) [])

  unfoldable pub exact_match : Locale → Text → Option Text
  unfolding lookup
  exact_match locale value = filled (lookup value (tables.known locale))

  unfoldable pub normalized_match : Locale → Text → Option Text
  unfolding find_value normalize_known_text
  normalized_match locale value =
      find_value (λ key. text_eq (normalize_known_text key) (normalize_known_text value))
        (tables.known locale)

  -- The four patterns of the Chinese text, with the translation of what they hold.
  unfoldable pub composed : (Text → Text) → Text → Text
  unfolding slice_between memory_scope
  composed inner value =
      if starts_with value (lit "available ") && ends_with value (lit " memory")
      then lit "可用的" ++ (memory_scope (slice_between 10 7 value) ++ lit "记忆")
      else if starts_with value (lit "Tool requires approval before execution: ")
      then lit "工具执行前需要审批：" ++ inner (drop 41 value)
      else if starts_with value (lit "Tool uses ") && ends_with value (lit " boundary")
      then lit "工具使用 " ++ (slice_between 10 9 value ++ lit " 边界")
      else if starts_with value (lit "Command is accepted by the ")
          && ends_with value (lit " sandbox profile")
      then lit "命令已通过" ++ (inner (slice_between 27 16 value) ++ lit "沙箱配置检查")
      else value

  -- The body of `translateKnownText`, with the call that it makes of itself.
  unfoldable pub known_step : (Text → Text) → Locale → Text → Text
  unfolding composed exact_match normalized_match
  known_step inner locale value = elim (exact_match locale value) [
    | some exact ↦ exact
    | none ↦
        let found = normalized_match locale value in
        if is_some (filled found) || not (is_zh locale)
        then or_default found value
        else composed inner value
  ]

  known_by : ℕ → Locale → Text → Text
  unfolding known_step
  known_by zero locale value = value
  known_by (suc fuel) locale value = known_step (known_by fuel locale) locale value

  -- Every call inside is for a shorter text.
  unfoldable pub translate_known_text : Locale → Text → Text
  unfolding known_by
  translate_known_text locale value = known_by (suc (length value)) locale value

  unfoldable pub translate_mode : Locale → Text → Text
  unfolding lookup translate
  translate_mode locale value =
      let direct = lit "mode." ++ value in
      if is_some (lookup direct tables.en)
      then translate locale direct []
      else elim (find (λ entry. text_eq (to_lower entry.0) (lit "mode." ++ to_lower value))
          tables.en) [ some entry ↦ translate locale entry.0 [] | none ↦ value ]

  unfoldable pub translate_status : Locale → Text → Text
  unfolding lookup translate translate_known_text
  translate_status locale value =
      let key = lit "status." ++ value in
      if is_some (lookup key tables.en)
      then translate locale key []
      else translate_known_text locale value

-- The last place of a pattern that leaves something behind it: what stands before and behind.
last_split : Text → Text → Option (Text × Text)
last_split pattern [] = none
last_split pattern (c ∷ s) = elim (last_split pattern s) [
  | some (before, after) ↦ some (c ∷ before, after)
  | none ↦
      let after = drop (length pattern) (c ∷ s) in
      if starts_with (c ∷ s) pattern && non_empty after then some ([], after) else none
]

-- `/^Skill (.+) is not compatible with mode (.+)$/`, its two groups; the first takes what it can.
unfoldable pub match_incompatible_skill : Text → Option (Text × Text)
unfolding last_split
match_incompatible_skill message =
    if starts_with message (lit "Skill ") && not (any is_terminator message)
    then elim (last_split (lit " is not compatible with mode ") (drop 6 message)) [
      | none ↦ none
      | some (skill, mode) ↦ if non_empty skill then some (skill, mode) else none
    ]
    else none

module _ (tables : Tables) where
  -- A caught error is its message; anything else that is thrown has none.
  unfoldable pub localize_error_message : Locale → Option Text → Text → Text
  unfolding translate_mode translate_known_text match_incompatible_skill
  localize_error_message locale caught fallback =
      let message = trim (or_default caught []) in
      if not (non_empty message)
      then fallback
      else if not (is_zh locale)
      then message
      else if includes_i message (lit "failed to fetch")
          || includes_i message (lit "load failed")
          || includes_i message (lit "networkerror")
          || includes_i message (lit "network request failed")
      then lit "本地后端服务未连接。请先启动后端服务，然后刷新当前页面。"
      else if includes_i message (lit "timeout") || includes_i message (lit "timed out")
      then lit "请求超时，请稍后重试。"
      else if includes_i message (lit "project not found")
      then lit "项目未找到。请重新打开项目后再查看文件。"
      else if includes_i message (lit "file not found")
      then lit "文件未找到，可能已被移动或删除。请刷新文件列表后重试。"
      else elim (match_incompatible_skill message) [
        | some (skill, mode) ↦
            lit "“"
            ++ (skill
                ++ (lit "”不适合“"
                    ++ (translate_mode tables locale mode ++ lit "”任务。请关闭这条项目规则，或切换到适合的任务类型。")))
        | none ↦ translate_known_text tables locale message
      ]

abbrev diagnostic_texts : Table
diagnostic_texts =
    (lit "MCP server entry must be a mapping", lit "外部工具服务条目必须是映射对象")
    ∷ (lit "Hook entry must be a mapping", lit "自动检查条目必须是映射对象")
    ∷ []

abbrev diagnostic_prefixes : Table
diagnostic_prefixes =
    (lit "Skills registry: ", lit "项目规则目录：")
    ∷ (lit "MCP registry: ", lit "外部工具目录：")
    ∷ (lit "Hook registry: ", lit "自动检查目录：")
    ∷ []

unfoldable pub translate_extension_diagnostic : Locale → Text → Text
unfolding lookup
translate_extension_diagnostic locale value =
    if not (is_zh locale) then value else elim (lookup value diagnostic_texts) [
      | some text ↦ text
      | none ↦ elim (find (λ entry. starts_with value entry.0) diagnostic_prefixes) [
        | some entry ↦ entry.1 ++ drop (length entry.0) value
        | none ↦ value
      ]
    ]
