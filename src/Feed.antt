-- ===== src/Feed.antt =====
-- frontend/src/components/ActivityFeed.tsx: what the feed says above the items of a run: how long it
-- worked, and on what. Times are milliseconds since 1970, which `time_of` reads of a date, if it is one.
pub mod Breakdown
pub mod Spans
mod Tests
use Prim.Native.String.{String}
use mini_agent_oscoder.Prelude.{
  ℕ, ◌+◌, ◌-◌, ◌/◌, ◌%◌, Bool, Option, none, some, List, [], ◌∷◌, ◌++◌, map, Text, lit, text_eq,
  keep, length, take, drop, ltb, leb, join, first, last, or_default, if◌then◌else◌,
}
use mini_agent_oscoder.Diff.{map_option}
use mini_agent_oscoder.Decimal.{print}
use mini_agent_oscoder.WorkItems.{
  WorkItem, WorkItemCategory, approval, change, command, file, guidance, result, system, thinking,
}
use mini_agent_oscoder.WorkItems.Describe.{Translator}
use mini_agent_oscoder.Keyed.{put}
use mini_agent_oscoder.Keyed

-- The words of the categories, which name them in the tables.
abbrev pub category_word : WorkItemCategory → String
category_word approval = "approval"
category_word change = "change"
category_word command = "command"
category_word file = "file"
category_word guidance = "guidance"
category_word result = "result"
category_word system = "system"
category_word thinking = "thinking"

abbrev pub category_name : WorkItemCategory → Text
category_name c = lit (category_word c)

-- `activity.category.${category}`
abbrev pub category_key : WorkItemCategory → String
category_key approval = "activity.category.approval"
category_key change = "activity.category.change"
category_key command = "activity.category.command"
category_key file = "activity.category.file"
category_key guidance = "activity.category.guidance"
category_key result = "activity.category.result"
category_key system = "activity.category.system"
category_key thinking = "activity.category.thinking"

abbrev pub priority : List WorkItemCategory
priority = thinking ∷ file ∷ command ∷ change ∷ approval ∷ result ∷ guidance ∷ system ∷ []

-- An entry of the map `counts`.
pub record CategoryCount : Type 0 where
  pub category : WorkItemCategory
  pub count : ℕ

abbrev pub name_of : CategoryCount → Text
name_of entry = category_name entry.category

-- `counts.get(category) ?? 0`
abbrev pub count_in : WorkItemCategory → List CategoryCount → ℕ
count_in c counts =
    or_default (map_option (λ entry. entry.count) (Keyed.get name_of (category_name c) counts)) 0

unfoldable pub add_category : List CategoryCount → WorkItemCategory → List CategoryCount
add_category counts c = put name_of counts (record { category = c; count = count_in c counts + 1 })

unfoldable pub add_items : List CategoryCount → List WorkItem → List CategoryCount
unfolding add_category
add_items counts [] = counts
add_items counts (item ∷ items) = add_items (add_category counts item.category) items

module _ (t : Translator) where
  abbrev pub counted_part : WorkItemCategory → ℕ → Text
  counted_part c n =
      t "activity.categoryCount"
        ((lit "label", t (category_key c) []) ∷ (lit "count", print n) ∷ [])

  unfoldable pub work_breakdown : List WorkItem → Text
  unfolding add_items
  work_breakdown [] = t "activity.workLogDescription" ((lit "count", lit "0") ∷ [])
  work_breakdown (item ∷ items) =
      let counts = add_items [] (item ∷ items) in
      join (lit " · ") (
        map (λ c. counted_part c (count_in c counts))
          (take 3 (keep (λ c. Keyed.has name_of (category_name c) counts) priority)))

  unfoldable pub span_text : ℕ → Text
  span_text milliseconds =
      let rounded = (milliseconds + 500) / 1000 in
      let seconds = if ltb rounded 1 then 1 else rounded in
      if ltb 0 (seconds / 60)
      then t "activity.durationMinutes"
          ((lit "minutes", print (seconds / 60)) ∷ (lit "seconds", print (seconds % 60)) ∷ [])
      else t "activity.durationSeconds" ((lit "seconds", print seconds) ∷ [])

  -- `workDuration`, from the times of the first and the last item.
  unfoldable pub span_between : Option ℕ → Option ℕ → Text
  unfolding span_text
  span_between (some start) (some finish) =
      if ltb finish start then [] else span_text (finish - start)
  span_between _ _ = []

  unfoldable pub work_duration : (Text → Option ℕ) → List WorkItem → Text
  unfolding span_between
  work_duration time_of items = elim (first items) [
    | none ↦ []
    | some item ↦ elim (last items) [
      | none ↦ []
      | some latest ↦
          if ltb (length items) 2
          then []
          else span_between (time_of item.time) (time_of latest.time)
    ]
  ]

-- `phaseTimeRange`, where `event_time` prints a time as the reader's locale has it.
unfoldable pub phase_time_range : (Text → Text) → List WorkItem → Text
phase_time_range event_time items = elim (first items) [
  | none ↦ []
  | some item ↦ elim (last items) [
    | none ↦ []
    | some latest ↦
        let start = event_time item.time in
        let finish = event_time latest.time in
        if text_eq start finish then start else start ++ (lit " - " ++ finish)
  ]
]

-- The items that the feed shows without being opened: `workItems.slice(-4)`.
unfoldable pub recent_items : List WorkItem → List WorkItem
recent_items items = drop (length items - 4) items
