-- ===== src/Formal/Terms.antt =====
-- splitEffectTerms of frontend/src/components/RuntimePanels.tsx, at a list of names.
use mathlib.Core.List.{reverse, reverse-append, reverse-reverse}
use mini_agent_oscoder.Prelude.{
  ◌≡◌, refl, sym, ap, ◌∙◌, arith, ℕ, Bool, true, false, not, ◌&&◌, ◌||◌, List, [], ◌∷◌, ◌++◌, map,
  Text, text_eq, is_space, trim, trim_start, trim_end, non_empty, keep, any, any-append, join,
  split_where, split_where-free, split_where-append, split_where-blank, ◌==◌, append-nil,
  append_assoc,
}
use mini_agent_oscoder.Formal.{split_effect_terms}

-- A name without white space, and without the signs of an effect.
abbrev pub is_sign : ℕ → Bool
is_sign c = is_space c || c == b')' || c == b',' || c == 0x2294 || c == 0x2205

abbrev pub is_name : Text → Bool
is_name s = non_empty s && not (any is_sign s)

abbrev pub AreNames : List Text → Type 0
AreNames names = any (λ s. not (is_name s)) names ≡ false

pub any-weaken :
    (p q : ℕ → Bool)
    → ((c : ℕ) → p c ≡ false → q c ≡ false)
    → (s : Text) → any p s ≡ false
    → any q s ≡ false
any-weaken p q h [] k = refl
any-weaken p q h (c ∷ s) k =
    ground (arith, h c (ground (arith, k)), any-weaken p q h s (ground (arith, k)))

any-reverse : (p : ℕ → Bool) (s : Text) → any p s ≡ false → any p (reverse s) ≡ false
any-reverse p [] h = refl
any-reverse p (c ∷ s) h =
    let e : reverse (c ∷ s) ≡ reverse s ++ (c ∷ []) = reverse-append (c ∷ []) s in
    rw e
      (any-append p (reverse s) (c ∷ []) (any-reverse p s (ground (arith, h))) (ground (arith, h)))

-- A text that begins without white space loses none at its start.
trim_start-solid :
    (s rest : Text)
    → non_empty s ≡ true
    → any is_space s ≡ false
    → trim_start (s ++ rest) ≡ s ++ rest
unfolding trim_start
trim_start-solid [] rest h k = cc
trim_start-solid (c ∷ s) rest h k = let e : is_space c ≡ false = ground (arith, k) in rw e refl

non_empty-snoc : (s : Text) (c : ℕ) → non_empty (s ++ (c ∷ [])) ≡ true
non_empty-snoc [] c = refl
non_empty-snoc (d ∷ s) c = refl

non_empty-reverse : (s : Text) → non_empty s ≡ true → non_empty (reverse s) ≡ true
non_empty-reverse [] h = h
non_empty-reverse (c ∷ s) h = rw (reverse-append (c ∷ []) s) (non_empty-snoc (reverse s) c)

trim_end-solid :
    (before s : Text)
    → non_empty s ≡ true
    → any is_space s ≡ false
    → trim_end (before ++ s) ≡ before ++ s
unfolding trim_end
trim_end-solid before s h k =
    ap (λ r. reverse (trim_start r)) (reverse-append before s)
    ∙ ap reverse (
        trim_start-solid (reverse s) (reverse before) (non_empty-reverse s h)
          (any-reverse is_space s k))
    ∙ ap reverse (sym (reverse-append before s))
    ∙ reverse-reverse (before ++ s)

pub name-solid : (p : Text) → is_name p ≡ true → (non_empty p ≡ true) × (any is_space p ≡ false)
name-solid p h = (
  ground (arith, h),
  any-weaken is_sign is_space (λ c k. ground (arith, k)) p (ground (arith, h)),
)

trim_end-blank : (p : Text) → trim_end (p ++ (b' ' ∷ [])) ≡ trim_end p
unfolding trim_end trim_start
trim_end-blank p = ap (λ r. reverse (trim_start r)) (reverse-append p (b' ' ∷ []))

trim-blank : (s : Text) → trim (b' ' ∷ s) ≡ trim s
unfolding trim trim_start
trim-blank s = refl

trim-between :
    (p rest before q : Text)
    → is_name p ≡ true
    → is_name q ≡ true
    → p ++ rest ≡ before ++ q
    → trim (p ++ rest) ≡ p ++ rest
unfolding trim
trim-between p rest before q h k e =
    ap trim_end (trim_start-solid p rest (name-solid p h).0 (name-solid p h).1)
    ∙ ap trim_end e
    ∙ trim_end-solid before q (name-solid q k).0 (name-solid q k).1
    ∙ sym e

pub trim-name : (p : Text) → is_name p ≡ true → trim p ≡ p
trim-name p h =
    ap trim (sym (append-nil p)) ∙ trim-between p [] [] p h h (append-nil p) ∙ append-nil p

pub trim-name_blank : (p : Text) → is_name p ≡ true → trim (p ++ (b' ' ∷ [])) ≡ p
unfolding trim
trim-name_blank p h =
    ap trim_end (trim_start-solid p (b' ' ∷ []) (name-solid p h).0 (name-solid p h).1)
    ∙ trim_end-blank p
    ∙ trim_end-solid [] p (name-solid p h).0 (name-solid p h).1

-- A list of names begins and ends with a name.
join-begins : (sep p : Text) (ps : List Text) → (rest : Text) × (join sep (p ∷ ps) ≡ p ++ rest)
unfolding join
join-begins sep p [] = ([], sym (append-nil p))
join-begins sep p (q ∷ ps) = (sep ++ join sep (q ∷ ps), refl)

ends_later :
    (p sep x before q : Text) → x ≡ before ++ q → p ++ (sep ++ x) ≡ (p ++ (sep ++ before)) ++ q
ends_later p sep x before q e =
    ap (λ y. p ++ (sep ++ y)) e
    ∙ ap (λ y. p ++ y) (sym (append_assoc sep before q))
    ∙ sym (append_assoc p (sep ++ before) q)

join-ends :
    (sep p : Text) (ps : List Text)
    → AreNames (p ∷ ps)
    → (before : Text) × (q : Text) × (is_name q ≡ true) × (join sep (p ∷ ps) ≡ before ++ q)
unfolding join
join-ends sep p [] h = ([], p, ground (arith, h), refl)
join-ends sep p (r ∷ ps) h =
    let (before, q, k, e) = join-ends sep r ps (ground (arith, h)) in
    (p ++ (sep ++ before), q, k, ends_later p sep (join sep (r ∷ ps)) before q e)

trim-join :
    (sep p : Text) (ps : List Text)
    → AreNames (p ∷ ps)
    → trim (join sep (p ∷ ps)) ≡ join sep (p ∷ ps)
trim-join sep p ps h =
    let (rest, b) = join-begins sep p ps in
    let (before, q, k, e) = join-ends sep p ps h in
    ap trim b ∙ trim-between p rest before q (ground (arith, h)) k (sym b ∙ e) ∙ sym b

split_next :
    (d : ℕ) (pre p x : Text) → p ++ ((pre ++ (d ∷ b' ' ∷ [])) ++ x) ≡ (p ++ pre) ++ (d ∷ b' ' ∷ x)
split_next d pre p x =
    ap (λ y. p ++ y) (append_assoc pre (d ∷ b' ' ∷ []) x) ∙ sym (append_assoc p pre (d ∷ b' ' ∷ x))

-- `pre` is what stands before the separator `d` in a list of names.
unfoldable pub IsSeparator : ℕ → Text → Type 0
IsSeparator d pre =
    ((b' ' == d) ≡ false)
    × ((p : Text) → is_name p ≡ true → trim (p ++ pre) ≡ p)
    × ((p : Text) → is_name p ≡ true → any (λ c. c == d) (p ++ pre) ≡ false)

pieces-trim :
    (d : ℕ) (pre p : Text) (ps : List Text)
    → IsSeparator d pre
    → ((q : Text) → is_name q ≡ true → any (λ c. c == d) q ≡ false)
    → AreNames (p ∷ ps)
    → map trim (split_where (λ c _. c == d) (join (pre ++ (d ∷ b' ' ∷ [])) (p ∷ ps))) ≡ p ∷ ps
unfolding join IsSeparator
pieces-trim d pre p [] sep free h =
    ap (map trim) (split_where-free d p (free p (ground (arith, h))))
    ∙ ap (λ x. x ∷ []) (trim-name p (ground (arith, h)))
pieces-trim d pre p (q ∷ ps) sep free h =
    let more : Text = join (pre ++ (d ∷ b' ' ∷ [])) (q ∷ ps) in
    ap (λ x. map trim (split_where (λ c _. c == d) x)) (split_next d pre p more)
    ∙ ap (map trim) (split_where-append d (p ++ pre) (b' ' ∷ more) (sep.2 p (ground (arith, h))))
    ∙ ap (λ x. x ∷ map trim (split_where (λ c _. c == d) (b' ' ∷ more)))
        (sep.1 p (ground (arith, h)))
    ∙ ap (λ xs. p ∷ xs) (split_where-blank d more sep.0)
    ∙ ap (λ xs. p ∷ xs) (pieces-trim d pre q ps sep free (ground (arith, h)))

keep-names : (names : List Text) → AreNames names → keep non_empty names ≡ names
keep-names [] h = refl
keep-names (p ∷ ps) h =
    let e : non_empty p ≡ true = ground (arith, h) in rw (e, keep-names ps (ground (arith, h))) refl

name-not_none :
    (p rest : Text)
    → is_name p ≡ true
    → (not (non_empty (p ++ rest)) || text_eq (p ++ rest) (0x2205 ∷ [])) ≡ false
unfolding text_eq
name-not_none [] rest h = cc
name-not_none (c ∷ p) rest h = ground (arith, h)

pub split_effect_terms-join :
    (d : ℕ) (pre p : Text) (ps : List Text)
    → IsSeparator d pre
    → ((q : Text) → is_name q ≡ true → any (λ c. c == d) q ≡ false)
    → AreNames (p ∷ ps)
    → split_effect_terms d (join (pre ++ (d ∷ b' ' ∷ [])) (p ∷ ps)) ≡ p ∷ ps
unfolding split_effect_terms
split_effect_terms-join d pre p ps sep free h =
    let (rest, b) = join-begins (pre ++ (d ∷ b' ' ∷ [])) p ps in
    let shown = name-not_none p rest (ground (arith, h)) in
    let begins : (not (non_empty (join (pre ++ (d ∷ b' ' ∷ [])) (p ∷ ps)))
          || text_eq (join (pre ++ (d ∷ b' ' ∷ [])) (p ∷ ps)) (0x2205 ∷ []))
        ≡ false =
      rw b shown in
    rw
      (
        split_effect_terms,
        trim-join (pre ++ (d ∷ b' ' ∷ [])) p ps h,
        begins,
        pieces-trim d pre p ps sep free h,
      )
      (keep-names (p ∷ ps) h)
