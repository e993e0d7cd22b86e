-- ===== src/WorkItems/Describe/Bounds.antt =====
-- How long the shortened texts of the feed are, and which events carry a change to review or an
-- output.
use mini_agent_oscoder.Prelude.{
  ℕ, ◌-◌, ◌≡◌, ◌≤◌, inl, inr, true, List, [], ◌∷◌, Text, lit, text_eq, one_of, is_some, trim, take,
  length, length-append, Option-cases, arith,
}
use mini_agent_oscoder.Json.{TraceEvent}
use mini_agent_oscoder.I18n.{Locale, Tables, squeeze}
use mini_agent_oscoder.I18n.Known.{length-take}
use mini_agent_oscoder.WorkItems.Describe.{Translator, compact_text}
use mini_agent_oscoder.WorkItems.Describe.Localized.{activity_chips}
use mini_agent_oscoder.WorkItems.Describe.Events.{process_event, named_event, full_text}
use mini_agent_oscoder.WorkItems.{payload_field}

-- A shortened text is no longer than it may be, the mark of what was left out included.
pub length-compact_text : (value : Text) (max : ℕ) → 1 ≤ max → length (compact_text value max) ≤ max
unfolding compact_text
length-compact_text value max h =
    let normalized = trim (squeeze value) in
    ground (
      arith,
      length-append (take (max - 1) normalized) (0x2026 ∷ []),
      length-take (max - 1) normalized,
    )

module _ (tables : Tables) (locale : Locale) (t : Translator) where
  named_event-change_set :
      (e : TraceEvent) (chips : List Text)
      → is_some (named_event tables locale t e chips).change_set ≡ true
      → text_eq e.event (lit "approval.requested") ≡ true
  unfolding named_event
  named_event-change_set e chips h = ground arith

  -- Only a request for approval carries a change to review.
  pub process_event-change_set :
      (e : TraceEvent)
      → is_some (process_event tables locale t e).change_set ≡ true
      → text_eq e.event (lit "approval.requested") ≡ true
  unfolding process_event
  process_event-change_set e h = elim (Option-cases (full_text (payload_field e "error"))) [
    | inr (s, k) ↦ ground (arith, k)
    | inl k ↦ elim (Option-cases (full_text (payload_field e "termination_reason"))) [
      | inr (s, m) ↦ ground (arith, k, m)
      | inl m ↦ ground (arith, k, m, named_event-change_set e (activity_chips tables locale e t))
    ]
  ]

  named_event-output :
      (e : TraceEvent) (chips : List Text)
      → is_some (named_event tables locale t e chips).output ≡ true
      → one_of ("tool.executed" ∷ "tool.failed" ∷ "action.rejected" ∷ []) e.event ≡ true
  unfolding named_event
  named_event-output e chips h = ground arith

  -- Only an action that was executed, failed or was rejected carries an output.
  pub process_event-output :
      (e : TraceEvent)
      → is_some (process_event tables locale t e).output ≡ true
      → one_of ("tool.executed" ∷ "tool.failed" ∷ "action.rejected" ∷ []) e.event ≡ true
  unfolding process_event
  process_event-output e h = elim (Option-cases (full_text (payload_field e "error"))) [
    | inr (s, k) ↦ ground (arith, k)
    | inl k ↦ elim (Option-cases (full_text (payload_field e "termination_reason"))) [
      | inr (s, m) ↦ ground (arith, k, m)
      | inl m ↦ ground (arith, k, m, named_event-output e (activity_chips tables locale e t))
    ]
  ]
