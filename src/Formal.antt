-- ===== src/Formal.antt =====
-- frontend/src/components/RuntimePanels.tsx: the effect of a formal program, which the daemon prints
-- as `allow(a ⊔ b) ∧ deny(c, d)`, read into the two groups that the panel shows.
pub mod Terms
pub mod RoundTrip
mod Tests
use mini_agent_oscoder.Prelude.{
  ℕ, Bool, true, false, not, ◌||◌, Option, none, some, List, [], ◌∷◌, map, Text, lit, text_eq, trim,
  trim_start, non_empty, keep, split_where, ◌==◌, ◌>>=◌, if◌then◌else◌,
}
use mini_agent_oscoder.Diff.{is_terminator, map_option}
use mini_agent_oscoder.Extensions.Words.{until_last}

pub record EffectGroups : Type 0 where
  pub parsed : Bool
  pub allow : List Text
  pub deny : List Text

unfoldable pub split_effect_terms : ℕ → Text → List Text
split_effect_terms separator value =
    let normalized = trim value in
    if not (non_empty normalized) || text_eq normalized (0x2205 ∷ [])
    then []
    else keep non_empty (map trim (split_where (λ c _. c == separator) normalized))

-- What is left of a text after a word that it begins with.
unfoldable pub after_word : Text → Text → Option Text
after_word [] s = some s
after_word (c ∷ word) [] = none
after_word (c ∷ word) (d ∷ s) = let rest = after_word word s in if c == d then rest else none

-- `\s*∧\s*deny\((.*)\)$`
unfoldable pub deny_group : Text → Option Text
unfolding after_word
deny_group s =
    after_word (0x2227 ∷ []) (trim_start s)
    >>= (λ r. after_word (lit "deny(") (trim_start r) >>= (λ inner. until_last b')' inner))

-- `(.*)\)\s*∧\s*deny\((.*)\)$`, where the first group is as long as it can be.
unfoldable pub groups : Text → Option (Text × Text)
groups [] = none
groups (c ∷ s) =
    let later = groups s in
    elim later [
      | some (allowed, denied) ↦ if is_terminator c then none else some (c ∷ allowed, denied)
      | none ↦ if c == b')' then map_option (λ denied. ([], denied)) (deny_group s) else none
    ]

unfoldable pub parse_effect_expression : Text → EffectGroups
unfolding groups split_effect_terms
parse_effect_expression effect = elim (after_word (lit "allow(") effect >>= groups) [
  | none ↦ record { parsed = false; allow = effect ∷ []; deny = [] }
  | some (allowed, denied) ↦ record {
    parsed = true;
    allow = split_effect_terms 0x2294 allowed;
    deny = split_effect_terms b',' denied;
  }
]
