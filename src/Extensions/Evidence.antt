-- ===== src/Extensions/Evidence.antt =====
-- frontend/src/components/ExtensionPanel.tsx: what the panel shows of an extension and of its evidence.
use Prim.Native.String.{String}
use mathlib.Core.List.{reverse}
use mini_agent_oscoder.Prelude.{
  ◌≡◌, refl, ap, ◌∙◌, arith, inl, inr, Bool, true, false, not, ◌&&◌, ◌||◌, Bool-cases, Option, none,
  some, List, [], ◌∷◌, ◌++◌, map, Text, lit, text_eq, eq_of_text_eq, ◌or_else◌, is_some, find, take,
  join, if◌then◌else◌,
}
use mini_agent_oscoder.Json.{null, bool, str, Value, TraceEvent, property, array_value}
use mini_agent_oscoder.WorkItems.Describe.{Translator}

-- `value ?? undefined`
abbrev not_null : Option Value → Option Value
not_null none = none
not_null (some null) = none
not_null (some v) = some v

abbrev text_of : Option Value → Option Text
text_of (some (str [])) = none
text_of (some (str (c ∷ s))) = some (c ∷ s)
text_of _ = none

abbrev pub is_identity : Text → Option Text → Bool
is_identity id none = false
is_identity id (some i) = text_eq i id

-- `lookup.get(id)`
abbrev pub looked_up : Text → List (Text × TraceEvent) → Option TraceEvent
looked_up id [] = none
looked_up id ((i, event) ∷ lookup) = if text_eq i id then some event else looked_up id lookup

-- `if (id && !lookup.has(id)) lookup.set(id, event)`
unfoldable pub set_once :
    List (Text × TraceEvent) → Option Text → TraceEvent → List (Text × TraceEvent)
set_once lookup none event = lookup
set_once lookup (some id) event =
    if is_some (looked_up id lookup) then lookup else lookup ++ ((id, event) ∷ [])

looked_up-append :
    (id i : Text) (event : TraceEvent) (lookup : List (Text × TraceEvent))
    → looked_up id (lookup ++ ((i, event) ∷ []))
      ≡ (looked_up id lookup or_else (if text_eq i id then some event else none))
looked_up-append id i event [] = refl
looked_up-append id i event ((j, e) ∷ lookup) = ground (arith, looked_up-append id i event lookup)

looked_up-same :
    (id i : Text) (event : TraceEvent) (lookup : List (Text × TraceEvent))
    → is_some (looked_up i lookup) ≡ true
    → looked_up id lookup
      ≡ (looked_up id lookup or_else (if text_eq i id then some event else none))
looked_up-same id i event lookup h = elim (Bool-cases (text_eq i id)) [
  | inl e ↦ ground (arith, h, e, ap (λ k. looked_up k lookup) (eq_of_text_eq i id e))
  | inr e ↦ ground (arith, e)
]

looked_up-set_once :
    (id : Text) (found : Option Text) (event : TraceEvent) (lookup : List (Text × TraceEvent))
    → looked_up id (set_once lookup found event)
      ≡ (looked_up id lookup or_else (if is_identity id found then some event else none))
unfolding set_once
looked_up-set_once id none event lookup = ground arith
looked_up-set_once id (some i) event lookup = elim (Bool-cases (is_some (looked_up i lookup))) [
  | inl e ↦ rw e (looked_up-same id i event lookup e)
  | inr e ↦ rw e (looked_up-append id i event lookup)
]

module _ (printed : Value → Text) where
  -- `Array.isArray(payload.skill_ids) ? payload.skill_ids.join(", ") : undefined`, where `printed` is how
  -- a `join` prints an element.
  abbrev joined_ids : Option Value → Option Value
  joined_ids v = elim (array_value v) [
    | none ↦ none
    | some vs ↦ some (str (join (lit ", ") (map printed vs)))
  ]

  unfoldable pub event_identity : TraceEvent → Option Text
  event_identity event =
      let payload = λ (key : String). property (lit key) event.payload in
      text_of (
        not_null (payload "skill_id")
        or_else (joined_ids (payload "skill_ids")
            or_else (not_null (payload "server_id")
                or_else (not_null (payload "hook_id") or_else payload "tool"))))

  abbrev pub is_about : Text → TraceEvent → Bool
  is_about id event = is_identity id (event_identity event)

  unfoldable pub add_evidence :
      List (Text × TraceEvent) → List TraceEvent → List (Text × TraceEvent)
  unfolding event_identity set_once
  add_evidence lookup [] = lookup
  add_evidence lookup (event ∷ events) =
      add_evidence (set_once lookup (event_identity event) event) events

  unfoldable pub evidence_by_target : List TraceEvent → List (Text × TraceEvent)
  unfolding add_evidence
  evidence_by_target evidence = add_evidence [] (reverse evidence)

  -- `recentEvidence`
  unfoldable pub recent_evidence : List TraceEvent → List TraceEvent
  recent_evidence evidence = take 8 (reverse evidence)

  looked_up-add_evidence :
      (events : List TraceEvent) (id : Text) (lookup : List (Text × TraceEvent))
      → looked_up id (add_evidence lookup events)
        ≡ (looked_up id lookup or_else find (is_about id) events)
  unfolding add_evidence
  looked_up-add_evidence [] id lookup = ground arith
  looked_up-add_evidence (event ∷ events) id lookup =
      looked_up-add_evidence events id (set_once lookup (event_identity event) event)
      ∙ rw (looked_up-set_once id (event_identity event) event lookup) ground arith

  -- The event that is looked up for an extension is the latest one about it in the evidence, and there
  -- is none exactly if the evidence has none about it.
  pub evidence_by_target-latest :
      (evidence : List TraceEvent) (id : Text)
      → looked_up id (evidence_by_target evidence) ≡ find (is_about id) (reverse evidence)
  unfolding evidence_by_target
  evidence_by_target-latest evidence id = looked_up-add_evidence (reverse evidence) id []

-- What a row shows of an extension, where `failed` says that its latest event did.
unfoldable pub has_failed : Option TraceEvent → Bool
has_failed none = false
has_failed (some event) = elim (property (lit "ok") event.payload) [
  | none ↦ false
  | some v ↦ elim v [ bool ok ↦ not ok | _ ↦ false ]
]

pub data Tone : Type 0 where
  failed warning enabled off : Tone

unfoldable pub row_tone : Option TraceEvent → (is_valid is_compatible is_enabled : Bool) → Tone
unfolding has_failed
row_tone event is_valid is_compatible is_enabled =
    if has_failed event
    then failed
    else if not is_valid || not is_compatible
    then warning
    else if is_enabled
    then enabled
    else off

unfoldable pub row_status :
    (Text → Text)
    → Translator
    → Option TraceEvent
    → (is_valid is_compatible is_enabled : Bool) → Text
unfolding has_failed
row_status known t event is_valid is_compatible is_enabled =
    if has_failed event
    then known (elim event [ none ↦ [] | some e ↦ e.event ])
    else if not is_valid
    then t "extensions.badge.invalid" []
    else if is_enabled && not is_compatible
    then t "extensions.badge.enabledOverride" []
    else if not is_compatible
    then t "extensions.badge.notRecommended" []
    else if is_enabled
    then t "extensions.badge.enabled" []
    else t "extensions.badge.off" []

-- Whether the switch of a row is disabled.
unfoldable pub row_disabled : (editable busy is_valid : Bool) → Bool
row_disabled editable busy is_valid = not editable || busy || not is_valid

-- `eventLabel`
unfoldable pub event_label : Text → Translator → Text
event_label event t =
    if text_eq event (lit "run.before")
    then t "extensions.event.runBefore" []
    else if text_eq event (lit "tool.before")
    then t "extensions.event.toolBefore" []
    else if text_eq event (lit "tool.after")
    then t "extensions.event.toolAfter" []
    else t "extensions.event.runAfter" []
