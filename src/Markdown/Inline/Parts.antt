-- ===== src/Markdown/Inline/Parts.antt =====
-- How the parts of a line of frontend/src/components/MarkdownDocument.tsx make up the line, and
-- where its code stands.
use mini_agent_oscoder.Prelude.{
  ℕ, zero, suc, ◌≡◌, refl, sym, ap, ◌∙◌, inl, inr, ◌⊎◌, false, some, List, [], ◌∷◌, ◌++◌,
  append-nil, append_assoc, Text, non_empty, keep, length, ◌==◌, All,
}
use mini_agent_oscoder.Markdown.Inline.{tick, to_tick, match_code, split_from, parts}

abbrev pub concat : List Text → Text
concat [] = []
concat (p ∷ ps) = p ++ concat ps

concat-keep : (ps : List Text) → concat (keep non_empty ps) ≡ concat ps
concat-keep [] = refl
concat-keep ([] ∷ ps) = concat-keep ps
concat-keep ((c ∷ p) ∷ ps) = ap (λ s. c ∷ p ++ s) (concat-keep ps)

ℕ-cases : (n : ℕ) → (n ≡ 0) ⊎ ((m : ℕ) × (n ≡ suc m))
ℕ-cases zero = inl refl
ℕ-cases (suc m) = inr (m, refl)

module _ (match : Text → ℕ) where
  split_from-plain :
      (piece : Text) (c : ℕ) (s : Text)
      → match (c ∷ s) ≡ 0
      → split_from match 0 piece (c ∷ s) ≡ split_from match 0 (piece ++ c ∷ []) s
  unfolding split_from
  split_from-plain piece c s h = rw (split_from, h) refl

  split_from-match :
      (piece : Text) (c : ℕ) (s : Text) (n : ℕ)
      → match (c ∷ s) ≡ suc n
      → split_from match 0 piece (c ∷ s) ≡ piece ∷ split_from match n (c ∷ []) s
  unfolding split_from
  split_from-match piece c s n h = rw (split_from, h) refl

  concat-split_from : (n : ℕ) (piece s : Text) → concat (split_from match n piece s) ≡ piece ++ s
  unfolding split_from
  concat-split_from n piece [] = refl
  concat-split_from zero piece (c ∷ s) = elim (ℕ-cases (match (c ∷ s))) [
    | inl h ↦
        ap concat (split_from-plain piece c s h)
        ∙ concat-split_from zero (piece ++ c ∷ []) s
        ∙ append_assoc piece (c ∷ []) s
    | inr (n, h) ↦
        ap concat (split_from-match piece c s n h)
        ∙ ap (λ r. piece ++ r) (concat-split_from n (c ∷ []) s)
  ]
  concat-split_from (suc zero) piece (c ∷ s) =
      ap (λ r. (piece ++ c ∷ []) ++ r) (concat-split_from zero [] s) ∙ append_assoc piece (c ∷ []) s
  concat-split_from (suc (suc n)) piece (c ∷ s) =
      concat-split_from (suc n) (piece ++ c ∷ []) s ∙ append_assoc piece (c ∷ []) s

  -- Put together again, the parts of a text are the text, whatever pattern they are split by.
  pub concat-parts : (text : Text) → concat (parts match text) ≡ text
  unfolding parts
  concat-parts text = concat-keep (split_from match 0 [] text) ∙ concat-split_from 0 [] text

-- A text without a backtick.
abbrev pub IsTickless : Text → Type 0
IsTickless s = All (λ c. (c == tick) ≡ false) s

to_tick-append :
    (inner after : Text) → IsTickless inner → to_tick (inner ++ tick ∷ after) ≡ some (length inner)
unfolding to_tick
to_tick-append [] after _ = refl
to_tick-append (c ∷ inner) after (h, hs) = rw (h, to_tick-append inner after hs) refl

match_code-other : (c : ℕ) (s : Text) → (c == tick) ≡ false → match_code (c ∷ s) ≡ 0
unfolding match_code
match_code-other c s h = rw h refl

match_code-tick :
    (c : ℕ) (inner after : Text)
    → IsTickless (c ∷ inner)
    → match_code (tick ∷ c ∷ (inner ++ tick ∷ after)) ≡ suc (suc (length (c ∷ inner)))
unfolding match_code
match_code-tick c inner after h = rw (to_tick-append (c ∷ inner) after h) refl

split_from-before :
    (piece before rest : Text)
    → IsTickless before
    → split_from match_code 0 piece (before ++ rest)
      ≡ split_from match_code 0 (piece ++ before) rest
split_from-before piece [] rest _ =
    ap (λ p. split_from match_code 0 p rest) (sym (append-nil piece))
split_from-before piece (c ∷ before) rest (h, hs) =
    split_from-plain match_code piece c (before ++ rest) (match_code-other c (before ++ rest) h)
    ∙ split_from-before (piece ++ c ∷ []) before rest hs
    ∙ ap (λ p. split_from match_code 0 p rest) (append_assoc piece (c ∷ []) before)

split_from-inside :
    (piece inside : Text) (d : ℕ) (rest : Text)
    → split_from match_code (suc (length inside)) piece (inside ++ d ∷ rest)
      ≡ (piece ++ (inside ++ d ∷ [])) ∷ split_from match_code 0 [] rest
unfolding split_from
split_from-inside piece [] d rest = refl
split_from-inside piece (c ∷ inside) d rest =
    split_from-inside (piece ++ c ∷ []) inside d rest
    ∙ ap (λ p. p ∷ split_from match_code 0 [] rest) (append_assoc piece (c ∷ []) (inside ++ d ∷ []))

split_from-code :
    (before : Text) (c : ℕ) (inner after : Text)
    → IsTickless before
    → IsTickless (c ∷ inner)
    → split_from match_code 0 [] (before ++ tick ∷ c ∷ (inner ++ tick ∷ after))
      ≡ before ∷ (tick ∷ c ∷ (inner ++ tick ∷ [])) ∷ split_from match_code 0 [] after
split_from-code before c inner after hb hi =
    split_from-before [] before (tick ∷ c ∷ (inner ++ tick ∷ after)) hb
    ∙ split_from-match match_code before tick (c ∷ (inner ++ tick ∷ after)) _
        (match_code-tick c inner after hi)
    ∙ ap (λ ps. before ∷ ps) (split_from-inside (tick ∷ []) (c ∷ inner) tick after)

keep-code :
    (before p : Text) (ps : List Text)
    → keep non_empty (before ∷ (tick ∷ p) ∷ ps)
      ≡ keep non_empty (before ∷ []) ++ (tick ∷ p) ∷ keep non_empty ps
keep-code [] p ps = refl
keep-code (c ∷ before) p ps = refl

-- The first text between two backticks is a part of its own, with them, if it is not empty. What
-- stands before it is a part, unless it is empty, and what follows is split in the same way.
pub parts-code :
    (before : Text) (c : ℕ) (inner after : Text)
    → IsTickless before
    → IsTickless (c ∷ inner)
    → parts match_code (before ++ tick ∷ c ∷ (inner ++ tick ∷ after))
      ≡ keep non_empty (before ∷ []) ++ (tick ∷ c ∷ (inner ++ tick ∷ [])) ∷ parts match_code after
unfolding parts
parts-code before c inner after hb hi =
    ap (keep non_empty) (split_from-code before c inner after hb hi)
    ∙ keep-code before (c ∷ (inner ++ tick ∷ [])) (split_from match_code 0 [] after)
