-- ===== src/Diff/Lines.antt =====
-- The counts of a chunk against the classes of its lines, and nothing lost in the split.
use mini_agent_oscoder.Prelude.{
  ℕ, ◌+◌, ◌≡◌, Bool, true, false, List, [], ◌∷◌, Text, lit, starts_with, newline, join,
  join-split_where, arith, keep, length, if◌then◌else◌,
}
use mini_agent_oscoder.Diff.{
  is_addition, is_deletion, count_lines, split_chunks, add, delete, classify_diff_line,
}

abbrev pub is_add : Text → Bool
is_add line = elim (classify_diff_line line) [ add ↦ true | _ ↦ false ]

abbrev pub is_delete : Text → Bool
is_delete line = elim (classify_diff_line line) [ delete ↦ true | _ ↦ false ]

-- What begins with a plus or a minus begins with no other mark.
plus_only :
    (line : Text)
    → starts_with line (lit "+") ≡ true
    → (starts_with line (lit "---") ≡ false)
      × (starts_with line (lit "@@") ≡ false)
      × (starts_with line (lit "diff ") ≡ false)
      × (starts_with line (lit "index ") ≡ false)
unfolding starts_with lit
plus_only [] h = cc
plus_only (c ∷ s) h = ground arith

minus_only :
    (line : Text)
    → starts_with line (lit "-") ≡ true
    → (starts_with line (lit "+++") ≡ false)
      × (starts_with line (lit "@@") ≡ false)
      × (starts_with line (lit "diff ") ≡ false)
      × (starts_with line (lit "index ") ≡ false)
      × (starts_with line (lit "+") ≡ false)
unfolding starts_with lit
minus_only [] h = cc
minus_only (c ∷ s) h = ground arith

is_addition-is_add : (line : Text) → is_addition line ≡ is_add line
unfolding classify_diff_line
is_addition-is_add line = ground (arith, plus_only line, minus_only line)

is_deletion-is_delete : (line : Text) → is_deletion line ≡ is_delete line
unfolding classify_diff_line
is_deletion-is_delete line = ground (arith, plus_only line, minus_only line)

count_lines_from :
    (a d : ℕ) (lines : List Text)
    → ((count_lines a d lines).0 ≡ a + length (keep is_add lines))
      × ((count_lines a d lines).1 ≡ d + length (keep is_delete lines))
unfolding count_lines
count_lines_from a d [] = omega arith
count_lines_from a d (line ∷ lines) = ground (
  arith,
  is_addition-is_add line,
  is_deletion-is_delete line,
  count_lines_from (if is_addition line then a + 1 else a) (if is_deletion line then d + 1 else d)
      lines,
)

-- The two numbers of a file are the numbers of its lines that are coloured as added and as deleted.
pub count_lines-classify :
    (lines : List Text)
    → ((count_lines 0 0 lines).0 ≡ length (keep is_add lines))
      × ((count_lines 0 0 lines).1 ≡ length (keep is_delete lines))
count_lines-classify lines = omega (arith, count_lines_from 0 0 lines)

-- The chunks of a patch, joined again, are the patch.
pub join-split_chunks : (content : Text) → join (newline ∷ []) (split_chunks content) ≡ content
unfolding split_chunks
join-split_chunks content = join-split_where _ newline (λ c s h. ground arith) content
