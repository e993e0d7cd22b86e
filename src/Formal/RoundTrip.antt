-- ===== src/Formal/RoundTrip.antt =====
-- parseEffectExpression of frontend/src/components/RuntimePanels.tsx, and what the daemon prints for it.
use mini_agent_oscoder.Prelude.{
  ◌≡◌, refl, ap, ◌∙◌, arith, ℕ, Bool, true, false, none, some, List, [], ◌∷◌, ◌++◌, Text, lit,
  text_eq, is_space, trim, trim_start, any, any-append, join, ◌==◌, append-nil,
}
use mini_agent_oscoder.Diff.{is_terminator}
use mini_agent_oscoder.Extensions.Words.{until_last}
use mini_agent_oscoder.Formal.{
  split_effect_terms, after_word, deny_group, groups, parse_effect_expression,
}
use mini_agent_oscoder.Formal.Terms.{
  is_sign, AreNames, IsSeparator, any-weaken, trim-name, trim-name_blank, split_effect_terms-join,
}

-- The names denied, as they are printed.
abbrev pub printed_denied : List Text → Text
printed_denied [] = 0x2205 ∷ []
printed_denied (name ∷ names) = join (b',' ∷ b' ' ∷ []) (name ∷ names)

-- What `_effect_expression` of the daemon prints for one allowed effect or more.
abbrev pub printed_effect : List Text → List Text → Text
printed_effect allowed denied =
    lit "allow("
    ++ (join (b' ' ∷ 0x2294 ∷ b' ' ∷ []) allowed
        ++ (b')' ∷ (lit " ∧ deny(" ++ (printed_denied denied ++ (b')' ∷ [])))))

any-join :
    (q : ℕ → Bool) (sep : Text) (ps : List Text)
    → any q sep ≡ false
    → ((c : ℕ) → is_sign c ≡ false → q c ≡ false)
    → AreNames ps
    → any q (join sep ps) ≡ false
unfolding join
any-join q sep [] h k names = refl
any-join q sep (p ∷ []) h k names = any-weaken is_sign q k p (ground (arith, names))
any-join q sep (p ∷ r ∷ ps) h k names =
    any-append q p (sep ++ join sep (r ∷ ps)) (any-weaken is_sign q k p (ground (arith, names)))
      (any-append q sep (join sep (r ∷ ps)) h (any-join q sep (r ∷ ps) h k (ground (arith, names))))

any-printed_denied :
    (q : ℕ → Bool) (denied : List Text)
    → q 0x2205 ≡ false
    → any q (b',' ∷ b' ' ∷ []) ≡ false
    → ((c : ℕ) → is_sign c ≡ false → q c ≡ false)
    → AreNames denied
    → any q (printed_denied denied) ≡ false
any-printed_denied q [] n h k names = ground (arith, n)
any-printed_denied q (p ∷ ps) n h k names = any-join q (b',' ∷ b' ' ∷ []) (p ∷ ps) h k names

sign-terminator : (c : ℕ) → is_sign c ≡ false → is_terminator c ≡ false
unfolding is_space
sign-terminator c h = ground (arith, h)

groups-none : (s : Text) → any (λ c. c == b')') s ≡ false → groups (s ++ (b')' ∷ [])) ≡ none
unfolding groups deny_group after_word trim_start
groups-none [] h = refl
groups-none (c ∷ s) h =
    let other : (c == b')') ≡ false = ground (arith, h) in
    rw (groups-none s (ground (arith, h)), other) refl

groups-read :
    (a d rest : Text)
    → any is_terminator a ≡ false
    → groups rest ≡ none
    → deny_group rest ≡ some d
    → groups (a ++ (b')' ∷ rest)) ≡ some (a, d)
unfolding groups
groups-read [] d rest h n k = rw (n, k) refl
groups-read (c ∷ a) d rest h n k =
    let inside : is_terminator c ≡ false = ground (arith, h) in
    rw (groups-read a d rest (ground (arith, h)) n k, inside) refl

until_last-read :
    (d : Text) → any is_terminator d ≡ false → until_last b')' (d ++ (b')' ∷ [])) ≡ some d
unfolding until_last
until_last-read [] h = refl
until_last-read (c ∷ []) h = let e : is_terminator c ≡ false = ground (arith, h) in rw e refl
until_last-read (c ∷ e ∷ d) h =
    let inside : is_terminator c ≡ false = ground (arith, h) in
    rw (until_last-read (e ∷ d) (ground (arith, h)), inside) refl

deny_group-read :
    (d : Text)
    → any is_terminator d ≡ false
    → deny_group (lit " ∧ deny(" ++ (d ++ (b')' ∷ []))) ≡ some d
unfolding deny_group after_word trim_start lit
deny_group-read d h = until_last-read d h

join-IsSeparator : IsSeparator 0x2294 (b' ' ∷ [])
unfolding IsSeparator
join-IsSeparator = (
  refl,
  (λ p h. trim-name_blank p h),
  (λ p h.
      any-append (λ c. c == 0x2294) p (b' ' ∷ [])
        (any-weaken is_sign _ (λ c k. ground (arith, k)) p (ground (arith, h))) refl),
)

comma-IsSeparator : IsSeparator b',' []
unfolding IsSeparator
comma-IsSeparator = (
  refl,
  (λ p h. ap trim (append-nil p) ∙ trim-name p h),
  (λ p h.
      any-append (λ c. c == b',') p []
        (any-weaken is_sign _ (λ c k. ground (arith, k)) p (ground (arith, h))) refl),
)

split_effect_terms-denied :
    (denied : List Text)
    → AreNames denied
    → split_effect_terms b',' (printed_denied denied) ≡ denied
split_effect_terms-denied [] h = unfold split_effect_terms in unfold trim in unfold text_eq in refl
split_effect_terms-denied (p ∷ ps) h =
    split_effect_terms-join b',' [] p ps comma-IsSeparator
      (λ q k. any-weaken is_sign _ (λ c g. ground (arith, g)) q (ground (arith, k))) h

parse_effect_expression-groups :
    (effect inner a d : Text)
    → after_word (lit "allow(") effect ≡ some inner
    → groups inner ≡ some (a, d)
    → parse_effect_expression effect ≡ record {
      parsed = true;
      allow = split_effect_terms 0x2294 a;
      deny = split_effect_terms b',' d;
    }
unfolding parse_effect_expression
parse_effect_expression-groups effect inner a d e g = rw (parse_effect_expression, e, g) refl

-- What the daemon prints of the allowed and the denied effects of a program is read into the same
-- two groups, in their order; provided that some effect is allowed, and that no name of an effect is
-- empty or holds white space, a comma, a closing parenthesis or one of the signs of joining and of
-- nothing.
pub parse_effect_expression-printed :
    (p : Text) (ps denied : List Text)
    → AreNames (p ∷ ps)
    → AreNames denied
    → parse_effect_expression (printed_effect (p ∷ ps) denied)
      ≡ record { parsed = true; allow = p ∷ ps; deny = denied }
unfolding lit after_word
parse_effect_expression-printed p ps denied h k =
    let shut : any is_terminator (printed_denied denied) ≡ false =
      any-printed_denied is_terminator denied refl refl sign-terminator k in
    let rest : Text = lit " ∧ deny(" ++ (printed_denied denied ++ (b')' ∷ [])) in
    let single : any (λ c. c == b')') (printed_denied denied) ≡ false =
      any-printed_denied (λ c. c == b')') denied refl refl (λ c g. ground (arith, g)) k in
    let none_later : groups rest ≡ none =
      groups-none (lit " ∧ deny(" ++ printed_denied denied) (ground (arith, single)) in
    let allowed : Text = join (b' ' ∷ 0x2294 ∷ b' ' ∷ []) (p ∷ ps) in
    let read : groups (allowed ++ (b')' ∷ rest)) ≡ some (allowed, printed_denied denied) =
      groups-read allowed (printed_denied denied) rest
        (any-join is_terminator (b' ' ∷ 0x2294 ∷ b' ' ∷ []) (p ∷ ps) refl sign-terminator h)
        none_later (deny_group-read (printed_denied denied) shut) in
    parse_effect_expression-groups (printed_effect (p ∷ ps) denied) (allowed ++ (b')' ∷ rest))
      allowed (printed_denied denied) refl read
    ∙ rw
        (
          split_effect_terms-denied denied k,
          split_effect_terms-join 0x2294 (b' ' ∷ []) p ps join-IsSeparator
              (λ q g. any-weaken is_sign _ (λ c e. ground (arith, e)) q (ground (arith, g))) h,
        )
        refl
