-- ===== src/Feed/Tests.antt =====
-- A feed of two items, and the theorems at it.
use mini_agent_oscoder.Prelude.{
  ◌≡◌, refl, arith, ℕ, ◌*◌, Option, none, some, [], ◌∷◌, ◌++◌, map, Text, lit, text_eq, keep, take,
  ltb, join,
}
use mini_agent_oscoder.Decimal.{print}
use mini_agent_oscoder.Phases.{WorkItemPhase}
use mini_agent_oscoder.WorkItems.{WorkItem, WorkItemKind, WorkItemCategory}
use mini_agent_oscoder.WorkItems.Describe.{Translator}
use mini_agent_oscoder.Keyed
use mini_agent_oscoder.Feed.{priority, counted_part, work_breakdown, work_duration}
use mini_agent_oscoder.Feed.Breakdown.{count_of, work_breakdown-counts}
use mini_agent_oscoder.Feed.Spans.{IsSpan, span_words, work_duration-IsSpan}

-- A translator that shows the values of a text alone.
abbrev values : Translator
values key [] = []
values key ((name, value) ∷ table) = value ++ values key table

abbrev item_at : Text → WorkItemCategory → WorkItem
item_at time category = record {
  process = record {
    title = [];
    detail = [];
    chips = [];
    change_set = none;
    output = none;
    output_label = none;
  };
  category = category;
  kind = WorkItemKind.runtime;
  phase = WorkItemPhase.inspect;
  tone = [];
  time = time;
}

abbrev early : WorkItem
early = item_at (1 ∷ []) WorkItemCategory.command

abbrev late : WorkItem
late = item_at (1197 ∷ []) WorkItemCategory.file

-- Times in tenths of a second.
abbrev clock : Text → Option ℕ
clock [] = none
clock (c ∷ s) = some (c * 100)

-- 119,600 ms are two minutes here, where the history has a minute and 60 seconds.
work_duration-rounds : work_duration values clock (early ∷ late ∷ []) ≡ lit "20"
unfolding work_duration lit print
work_duration-rounds = refl

work_breakdown-order : work_breakdown values (early ∷ late ∷ late ∷ []) ≡ lit "2 · 1"
unfolding work_breakdown lit print text_eq join Keyed.has Keyed.put Keyed.get
work_breakdown-order = refl

work_breakdown-counts_example :
    work_breakdown values (early ∷ late ∷ late ∷ [])
    ≡ join (lit " · ") (
        map
          (λ c. counted_part values c (count_of c (early ∷ late ∷ late ∷ [])))
          (take 3 (keep (λ c. ltb 0 (count_of c (early ∷ late ∷ late ∷ []))) priority)))
work_breakdown-counts_example = work_breakdown-counts values early (late ∷ late ∷ [])

work_duration-IsSpan_example :
    (m : ℕ) × (s : ℕ) × IsSpan 119_600 m s
    × (work_duration values clock (early ∷ late ∷ []) ≡ span_words values m s)
work_duration-IsSpan_example =
    work_duration-IsSpan values clock early (late ∷ []) late 100 119_700 (omega arith) refl refl
      refl (omega arith)
