-- ===== src/Trace/Usage.antt =====
-- The usage of the routed models in frontend/src/components/RuntimePanels.tsx, as sums over the trace.
use mini_agent_oscoder.Prelude.{
  ◌≡◌, refl, ◌∙◌, ap, arith, inl, inr, ◌⊎◌, ℕ, ◌+◌, ◌<◌, ltb, Bool, true, false, Bool-cases, Option,
  none, some, List, [], ◌∷◌, map, Text, text_eq, eq_of_text_eq, if◌then◌else◌,
}
use mini_agent_oscoder.Json.{TraceEvent}
use mini_agent_oscoder.Keyed.{put, get-put, get_key, HasDistinctKeys, put-HasDistinctKeys}
use mini_agent_oscoder.Keyed
use mini_agent_oscoder.Sorting.{IsOrdered, sort-IsOrdered, sort-lookup}
use mini_agent_oscoder.Trace.{
  RoutedUsage, profile_of, usage_of, one_more, add_usage, add_all, usage_order, summarize_usage,
}

abbrev pub Found : Type 0
Found = Option (Text × (Text × ℕ))

abbrev pub calls_of : Text → List RoutedUsage → ℕ
calls_of p usage = elim (Keyed.get profile_of p usage) [ none ↦ 0 | some u ↦ u.calls ]

abbrev pub tokens_of : Text → List RoutedUsage → ℕ
tokens_of p usage = elim (Keyed.get profile_of p usage) [ none ↦ 0 | some u ↦ u.tokens ]

-- The events that name a profile, and the tokens that they add.
abbrev pub call_count : Text → List Found → ℕ
call_count p [] = 0
call_count p (none ∷ found) = call_count p found
call_count p (some (profile, (model, tokens)) ∷ found) =
    if text_eq profile p then 1 + call_count p found else call_count p found

abbrev pub token_sum : Text → List Found → ℕ
token_sum p [] = 0
token_sum p (none ∷ found) = token_sum p found
token_sum p (some (profile, (model, tokens)) ∷ found) =
    if text_eq profile p then tokens + token_sum p found else token_sum p found

one_more-profile :
    (usage : List RoutedUsage) (profile model : Text) (tokens : ℕ) (current : Option RoutedUsage)
    → Keyed.get profile_of profile usage ≡ current
    → profile_of (one_more current profile model tokens) ≡ profile
unfolding one_more
one_more-profile usage profile model tokens none h = refl
one_more-profile usage profile model tokens (some u) h = get_key profile_of profile usage h

one_more-counts :
    (current : Option RoutedUsage) (profile model : Text) (tokens : ℕ)
    → ((one_more current profile model tokens).calls
        ≡ 1 + (elim current [ none ↦ 0 | some u ↦ u.calls ]))
      × ((one_more current profile model tokens).tokens
          ≡ tokens + (elim current [ none ↦ 0 | some u ↦ u.tokens ]))
unfolding one_more
one_more-counts none profile model tokens = (omega arith, omega arith)
one_more-counts (some u) profile model tokens = (omega arith, omega arith)

put-counts :
    (p : Text) (usage : List RoutedUsage) (r : RoutedUsage)
    → (calls_of p (put profile_of usage r)
        ≡ (if text_eq (profile_of r) p then r.calls else calls_of p usage))
      × (tokens_of p (put profile_of usage r)
          ≡ (if text_eq (profile_of r) p then r.tokens else tokens_of p usage))
put-counts p usage r = (
  rw (calls_of, get-put profile_of p usage r) ground arith,
  rw (tokens_of, get-put profile_of p usage r) ground arith,
)

-- A record that stands for one more event of its profile.
put-one_more :
    (p : Text) (usage : List RoutedUsage) (profile : Text) (tokens : ℕ) (r : RoutedUsage)
    → profile_of r ≡ profile
    → (r.calls ≡ 1 + calls_of profile usage) × (r.tokens ≡ tokens + tokens_of profile usage)
    → (calls_of p (put profile_of usage r)
        ≡ (if text_eq profile p then 1 + calls_of p usage else calls_of p usage))
      × (tokens_of p (put profile_of usage r)
          ≡ (if text_eq profile p then tokens + tokens_of p usage else tokens_of p usage))
put-one_more p usage profile tokens r same (c, t) =
    let put = put-counts p usage r in
    let key : text_eq (profile_of r) p ≡ text_eq profile p = ap (λ k. text_eq k p) same in
    elim (Bool-cases (text_eq profile p)) [
      | inl e ↦
          let q = eq_of_text_eq profile p e in
          let qc : calls_of profile usage ≡ calls_of p usage = ap (λ k. calls_of k usage) q in
          let qt : tokens_of profile usage ≡ tokens_of p usage = ap (λ k. tokens_of k usage) q in
          rw e (
            put.0 ∙ rw (key ∙ e) (c ∙ ap (λ n. 1 + n) qc),
            put.1 ∙ rw (key ∙ e) (t ∙ ap (λ n. tokens + n) qt),
          )
      | inr e ↦ rw e (put.0 ∙ rw (key ∙ e) refl, put.1 ∙ rw (key ∙ e) refl)
    ]

add_usage-counts :
    (p : Text) (usage : List RoutedUsage) (profile model : Text) (tokens : ℕ)
    → (calls_of p (add_usage usage (some (profile, (model, tokens))))
        ≡ (if text_eq profile p then 1 + calls_of p usage else calls_of p usage))
      × (tokens_of p (add_usage usage (some (profile, (model, tokens))))
          ≡ (if text_eq profile p then tokens + tokens_of p usage else tokens_of p usage))
unfolding add_usage
add_usage-counts p usage profile model tokens =
    let current = Keyed.get profile_of profile usage in
    put-one_more p usage profile tokens (one_more current profile model tokens)
      (one_more-profile usage profile model tokens current refl)
      (one_more-counts current profile model tokens)

add_all-counts :
    (found : List Found) (p : Text) (usage : List RoutedUsage)
    → (calls_of p (add_all usage found) ≡ calls_of p usage + call_count p found)
      × (tokens_of p (add_all usage found) ≡ tokens_of p usage + token_sum p found)
unfolding add_all
add_all-counts [] p usage = (omega arith, omega arith)
add_all-counts (none ∷ found) p usage = unfold add_usage in add_all-counts found p usage
add_all-counts (some (profile, (model, tokens)) ∷ found) p usage =
    let rest = add_all-counts found p (add_usage usage (some (profile, (model, tokens)))) in
    let now = add_usage-counts p usage profile model tokens in
    (ground (arith, rest, now), ground (arith, rest, now))

add_all-HasDistinctKeys :
    (found : List Found) (usage : List RoutedUsage)
    → HasDistinctKeys profile_of usage
    → HasDistinctKeys profile_of (add_all usage found)
unfolding add_all add_usage
add_all-HasDistinctKeys [] usage h = h
add_all-HasDistinctKeys (none ∷ found) usage h = add_all-HasDistinctKeys found usage h
add_all-HasDistinctKeys (some (profile, (model, tokens)) ∷ found) usage h =
    add_all-HasDistinctKeys found
      (put profile_of usage (one_more (Keyed.get profile_of profile usage) profile model tokens))
      (put-HasDistinctKeys profile_of usage
        (one_more (Keyed.get profile_of profile usage) profile model tokens) h)

calls_of-same :
    (p : Text) (usage more : List RoutedUsage)
    → Keyed.get profile_of p usage ≡ Keyed.get profile_of p more
    → calls_of p usage ≡ calls_of p more
calls_of-same p usage more h = rw (calls_of, h) refl

tokens_of-same :
    (p : Text) (usage more : List RoutedUsage)
    → Keyed.get profile_of p usage ≡ Keyed.get profile_of p more
    → tokens_of p usage ≡ tokens_of p more
tokens_of-same p usage more h = rw (tokens_of, h) refl

usage_order-total :
    (locale_le : Text → Text → Bool)
    → ((a b : Text) → (locale_le a b ≡ true) ⊎ (locale_le b a ≡ true))
    → (u v : RoutedUsage) → usage_order locale_le u v ≡ false
    → usage_order locale_le v u ≡ true
unfolding usage_order
usage_order-total locale_le total u v h = ground (arith, h, total u.profile v.profile)

-- What was called more often comes first; of what was called as often, what the locale has first.
abbrev pub IsByCalls : (Text → Text → Bool) → List RoutedUsage → Type 0
IsByCalls locale_le [] = Unit
IsByCalls locale_le (u ∷ []) = Unit
IsByCalls locale_le (u ∷ v ∷ us) =
    ((v.calls < u.calls) ⊎ ((v.calls ≡ u.calls) × (locale_le u.profile v.profile ≡ true)))
    × IsByCalls locale_le (v ∷ us)

usage_order-before :
    (locale_le : Text → Text → Bool) (u v : RoutedUsage)
    → usage_order locale_le u v ≡ true
    → (v.calls < u.calls) ⊎ ((v.calls ≡ u.calls) × (locale_le u.profile v.profile ≡ true))
unfolding usage_order
usage_order-before locale_le u v h = elim (Bool-cases (ltb v.calls u.calls)) [
  | inl e ↦ inl (ground (arith, e))
  | inr e ↦ inr (ground (arith, h, e), ground (arith, h, e))
]

IsByCalls-of_IsOrdered :
    (locale_le : Text → Text → Bool) (us : List RoutedUsage)
    → IsOrdered (usage_order locale_le) us
    → IsByCalls locale_le us
IsByCalls-of_IsOrdered locale_le [] h = tt
IsByCalls-of_IsOrdered locale_le (u ∷ []) h = tt
IsByCalls-of_IsOrdered locale_le (u ∷ v ∷ us) h =
    (usage_order-before locale_le u v h.0, IsByCalls-of_IsOrdered locale_le (v ∷ us) h.1)

-- Where the comparison of the locale is total, the usage that is shown has each profile once, the most
-- called first and those called as often in the order of the locale, and counts for a profile the
-- answers of the trace that name it, and the tokens of those answers; for a profile that none names,
-- nothing.
pub summarize_usage-sums :
    (locale_le : Text → Text → Bool) (token_count : Text → ℕ) (trace : List TraceEvent) (p : Text)
    → ((a b : Text) → (locale_le a b ≡ true) ⊎ (locale_le b a ≡ true))
    → HasDistinctKeys profile_of (summarize_usage locale_le token_count trace)
      × IsByCalls locale_le (summarize_usage locale_le token_count trace)
      × (calls_of p (summarize_usage locale_le token_count trace)
          ≡ call_count p (map (usage_of token_count) trace))
      × (tokens_of p (summarize_usage locale_le token_count trace)
          ≡ token_sum p (map (usage_of token_count) trace))
unfolding summarize_usage
summarize_usage-sums locale_le token_count trace p total =
    let found = map (usage_of token_count) trace in
    let counted = add_all-counts found p [] in
    let nothing : (calls_of p [] ≡ 0) × (tokens_of p [] ≡ 0) = unfold Keyed.get in (refl, refl) in
    let (look, distinct, _) =
      sort-lookup (usage_order locale_le) profile_of p (add_all [] found)
        (add_all-HasDistinctKeys found [] tt) in
    (
      distinct,
      IsByCalls-of_IsOrdered locale_le _ (
          sort-IsOrdered (usage_order locale_le) (usage_order-total locale_le total)
            (add_all [] found)),
      calls_of-same p _ _ look ∙ counted.0 ∙ rw nothing.0 (omega arith),
      tokens_of-same p _ _ look ∙ counted.1 ∙ rw nothing.1 (omega arith),
    )
