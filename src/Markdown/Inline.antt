-- ===== src/Markdown/Inline.antt =====
-- frontend/src/components/MarkdownDocument.tsx: code and strong parts of a line (`renderInline`,
-- `renderStrong`). `split` by a regular expression with one group gives the texts between the matches
-- and the matches.
pub mod Parts
use mini_agent_oscoder.Prelude.{
  ℕ, zero, suc, ◌+◌, ◌-◌, ◌≡◌, Bool, true, false, ◌&&◌, Option, none, some, List, [], ◌∷◌, ◌++◌,
  map, Text, lit, starts_with, ends_with, non_empty, keep, take, drop, length, ◌==◌, if◌then◌else◌,
}

abbrev pub tick : ℕ
tick = b'`'

-- The number of units before the next backtick.
unfoldable pub to_tick : Text → Option ℕ
to_tick [] = none
to_tick (c ∷ s) =
    let rest = to_tick s in
    if c == tick then some 0 else elim rest [ none ↦ none | some n ↦ some (suc n) ]

-- The length of a match of "`[^`]+`" at the beginning, and 0 where there is none.
unfoldable pub match_code : Text → ℕ
unfolding to_tick
match_code [] = 0
match_code (c ∷ s) =
    if c == tick
    then elim (to_tick s) [ none ↦ 0 | some zero ↦ 0 | some (suc n) ↦ suc (suc (suc n)) ]
    else 0

-- The number of units before the next star, which another has to follow.
to_stars : Text → Option ℕ
to_stars [] = none
to_stars (c ∷ s) =
    let rest = to_stars s in
    if c == b'*'
    then if starts_with s (lit "*") then some 0 else none
    else elim rest [ none ↦ none | some n ↦ some (suc n) ]

-- The length of a match of "\*\*[^*]+\*\*" at the beginning, and 0 where there is none.
unfoldable pub match_strong : Text → ℕ
unfolding to_stars
match_strong s =
    if starts_with s (lit "**")
    then elim (to_stars (drop 2 s)) [ none ↦ 0 | some zero ↦ 0 | some (suc n) ↦ suc n + 4 ]
    else 0

module _ (match : Text → ℕ) where
  -- With the units of the current match that are still to come, and what of the current piece has
  -- been read.
  unfoldable pub split_from : ℕ → Text → Text → List Text
  split_from n piece [] = piece ∷ []
  split_from zero piece (c ∷ s) = elim (match (c ∷ s)) [
    | zero ↦ split_from zero (piece ++ c ∷ []) s
    | suc n ↦ piece ∷ split_from n (c ∷ []) s
  ]
  split_from (suc zero) piece (c ∷ s) = (piece ++ c ∷ []) ∷ split_from zero [] s
  split_from (suc (suc n)) piece (c ∷ s) = split_from (suc n) (piece ++ c ∷ []) s

  -- `text.split(…).filter(Boolean)`
  unfoldable pub parts : Text → List Text
  unfolding split_from
  parts text = keep non_empty (split_from 0 [] text)

-- `part.slice(n, -n)`
abbrev pub slice_inside : ℕ → Text → Text
slice_inside n s = take ((length s - n) - n) (drop n s)

pub data Piece : Type 0 where
  strong plain : Text → Piece

pub data Node : Type 0 where
  code : Text → Node
  fragment : List Piece → Node

unfoldable pub strong_piece : Text → Piece
strong_piece part =
    if starts_with part (lit "**") && ends_with part (lit "**")
    then strong (slice_inside 2 part)
    else plain part

unfoldable pub render_strong : Text → List Piece
unfolding strong_piece match_strong parts
render_strong text = map strong_piece (parts match_strong text)

unfoldable pub inline_node : Text → Node
unfolding render_strong
inline_node part =
    if starts_with part (tick ∷ []) && ends_with part (tick ∷ [])
    then code (slice_inside 1 part)
    else fragment (render_strong part)

unfoldable pub render_inline : Text → List Node
unfolding inline_node match_code parts
render_inline text = map inline_node (parts match_code text)
