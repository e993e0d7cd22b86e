-- ===== src/Feed/Spans.antt =====
-- The text of a duration in workDuration of frontend/src/components/ActivityFeed.tsx.
use mini_agent_oscoder.Prelude.{
  ◌≡◌, refl, arith, inl, inr, ◌⊎◌, ℕ, ◌+◌, ◌-◌, ◌*◌, ◌/◌, ◌%◌, ◌≤◌, ◌<◌, Bool-cases, false, some,
  List, [], ◌∷◌, Text, lit, ltb, Option, length, last, if◌then◌else◌,
}
use mini_agent_oscoder.Decimal.{print}
use mini_agent_oscoder.WorkItems.{WorkItem}
use mini_agent_oscoder.WorkItems.Describe.{Translator}
use mini_agent_oscoder.Feed.{span_text, span_between, work_duration}

-- `m` minutes and `s` seconds are a time of work of `span` milliseconds, to the nearest second but
-- one at least.
abbrev pub IsSpan : ℕ → ℕ → ℕ → Type 0
IsSpan span m s =
    (s < 60)
    × (1 ≤ 60 * m + s)
    × (1000 * (60 * m + s) ≤ span + 1000)
    × (span < 1000 * (60 * m + s) + 500)
    × ((1000 * (60 * m + s) ≤ span + 500) ⊎ (span < 500))

abbrev seconds_of : ℕ → ℕ
seconds_of span = if ltb ((span + 500) / 1000) 1 then 1 else (span + 500) / 1000

seconds_of-IsSpan : (span : ℕ) → IsSpan span (seconds_of span / 60) (seconds_of span % 60)
seconds_of-IsSpan span = elim (Bool-cases (ltb ((span + 500) / 1000) 1)) [
  | inl e ↦ rw e (ground arith, ground arith, ground arith, ground arith, inr (ground (arith, e)))
  | inr e ↦ rw e (
    omega arith,
    ground (arith, e),
    ground (arith, e),
    ground (arith, e),
    inl (ground (arith, e)),
  )
]

module _ (t : Translator) where
  -- The words for so many minutes and seconds.
  abbrev pub span_words : ℕ → ℕ → Text
  span_words m s =
      if ltb 0 m
      then t "activity.durationMinutes" ((lit "minutes", print m) ∷ (lit "seconds", print s) ∷ [])
      else t "activity.durationSeconds" ((lit "seconds", print s) ∷ [])

  span_text-words :
      (span : ℕ) → span_text t span ≡ span_words (seconds_of span / 60) (seconds_of span % 60)
  unfolding span_text
  span_text-words span = elim (Bool-cases (ltb 0 (seconds_of span / 60))) [
    | inl e ↦ rw e refl
    | inr e ↦
        let below_minute : seconds_of span % 60 ≡ seconds_of span = ground (arith, e) in
        rw (e, below_minute) refl
  ]

  -- When the first and the last of two or more items have times, and the last is not the earlier, the
  -- feed shows the time between them to the nearest second, but one second at least, and never 60
  -- seconds beside the minutes.
  pub work_duration-IsSpan :
      (time_of : Text → Option ℕ) (item : WorkItem) (items : List WorkItem) (latest : WorkItem)
      (start finish : ℕ)
      → 2 ≤ length (item ∷ items)
      → last (item ∷ items) ≡ some latest
      → time_of item.time ≡ some start
      → time_of latest.time ≡ some finish
      → start ≤ finish
      → (m : ℕ) × (s : ℕ) × IsSpan (finish - start) m s
        × (work_duration t time_of (item ∷ items) ≡ span_words m s)
  unfolding work_duration span_between
  work_duration-IsSpan time_of item items latest start finish several ends begins stops ordered =
      let long : ltb (length (item ∷ items)) 2 ≡ false = ground (arith, several) in
      let forward : ltb finish start ≡ false = ground (arith, ordered) in
      (
        seconds_of (finish - start) / 60,
        seconds_of (finish - start) % 60,
        seconds_of-IsSpan (finish - start),
        rw (work_duration, span_between, ends, long, begins, stops, forward)
            (span_text-words (finish - start)),
      )
