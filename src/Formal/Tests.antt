-- ===== src/Formal/Tests.antt =====
-- Effects as the daemon prints them.
use mini_agent_oscoder.Prelude.{
  ◌≡◌, refl, true, false, [], ◌∷◌, lit, text_eq, trim, trim_start, split_where, is_space,
}
use mini_agent_oscoder.Extensions.Words.{until_last}
use mini_agent_oscoder.Formal.RoundTrip.{printed_effect, parse_effect_expression-printed}
use mini_agent_oscoder.Formal.{after_word, deny_group, parse_effect_expression}

parse-allowed : parse_effect_expression (lit "allow(read ⊔ write) ∧ deny(net, shell)") ≡ record {
  parsed = true;
  allow = lit "read" ∷ lit "write" ∷ [];
  deny = lit "net" ∷ lit "shell" ∷ [];
}
unfolding parse_effect_expression lit trim_start until_last trim text_eq split_where after_word
    deny_group
parse-allowed = refl

parse_effect_expression-printed_example :
    parse_effect_expression
      (printed_effect (lit "read" ∷ lit "write" ∷ []) (lit "net" ∷ lit "shell" ∷ []))
    ≡ record {
      parsed = true;
      allow = lit "read" ∷ lit "write" ∷ [];
      deny = lit "net" ∷ lit "shell" ∷ [];
    }
parse_effect_expression-printed_example =
    parse_effect_expression-printed (lit "read") (lit "write" ∷ []) (lit "net" ∷ lit "shell" ∷ [])
      (unfold lit in unfold is_space in refl) (unfold lit in unfold is_space in refl)

-- Any other text is shown as it is.
parse-other :
    parse_effect_expression (lit "pure")
    ≡ record { parsed = false; allow = lit "pure" ∷ []; deny = [] }
unfolding parse_effect_expression lit after_word
parse-other = refl
