-- ===== src/Markdown.antt =====
-- frontend/src/components/MarkdownDocument.tsx: the blocks of a report or an answer
-- (`parseMarkdown`). The loop's variables are the fields of a record, and one round of the loop is
-- a function on it.
pub mod Inline
pub mod Blocks
pub mod Fences
mod Tests
use mini_agent_oscoder.Prelude.{
  ℕ, ◌+◌, zero, suc, ◌≡◌, Bool, true, false, not, ◌&&◌, ◌||◌, Option, none, some, List, [], ◌∷◌,
  ◌++◌, Text, lit, starts_with, trim, trim_start, trim_end, non_empty, split_lines, newline, join,
  is_space, leb, ◌==◌, if◌then◌else◌, ◌or_else◌, or_default,
}
use mini_agent_oscoder.Diff.{whole_rest}

pub data Block : Type 0 where
  heading : (level : ℕ) → (text : Text) → Block
  paragraph : (text : Text) → Block
  list : (ordered : Bool) → (items : List Text) → Block
  code : (text : Text) → Block

pub record Reading : Type 0 where
  pub blocks : List Block
  pub paragraph : List Text
  pub list : List Text
  pub list_ordered : Option Bool
  pub code : List Text
  pub in_code : Bool

abbrev pub push_block : Block → Reading → Reading
push_block b s = record s { blocks = s.blocks ++ b ∷ [] }

-- `!xs.length`
abbrev pub is_empty : List Text → Bool
is_empty [] = true
is_empty (x ∷ xs) = false

unfoldable pub flush_paragraph : Reading → Reading
flush_paragraph s =
    if is_empty s.paragraph
    then s
    else record (push_block (Block.paragraph (join (lit " ") s.paragraph)) s) { paragraph = [] }

unfoldable pub flush_list : Reading → Reading
flush_list s =
    if is_empty s.list
    then s
    else record (push_block (Block.list (or_default s.list_ordered false) s.list) s) {
      list = [];
      list_ordered = none;
    }

-- `\s+(.+)$` at the end of a line without blanks at its end. So the group is what stands behind all
-- the blanks.
unfoldable pub after_blanks : Text → Option Text
after_blanks [] = none
after_blanks (c ∷ s) = if is_space c then whole_rest (trim_start s) else none

hashes : Text → ℕ
hashes [] = 0
hashes (c ∷ s) = let rest = hashes s in if c == b'#' then suc rest else 0

strip_hashes : Text → Text
strip_hashes [] = []
strip_hashes (c ∷ s) = let rest = strip_hashes s in if c == b'#' then rest else c ∷ s

-- `/^(#{1,3})\s+(.+)$/`, its two groups
unfoldable pub match_heading : Text → Option (ℕ × Text)
unfolding hashes strip_hashes
match_heading line =
    if leb 1 (hashes line) && leb (hashes line) 3
    then elim (after_blanks (strip_hashes line)) [ none ↦ none | some t ↦ some (hashes line, t) ]
    else none

-- `/^[-*]\s+(.+)$/`
unfoldable pub match_unordered : Text → Option Text
match_unordered [] = none
match_unordered (c ∷ s) = if c == b'-' || c == b'*' then after_blanks s else none

abbrev is_digit : ℕ → Bool
is_digit c = leb b'0' c && leb c b'9'

-- `[.)、]` and what follows
after_mark : Text → Option Text
after_mark [] = none
after_mark (c ∷ s) = if c == b'.' || c == b')' || c == 0x3001 then after_blanks s else none

after_digits : Text → Option Text
after_digits [] = none
after_digits (c ∷ s) = let rest = after_digits s in if is_digit c then rest else after_mark (c ∷ s)

-- `/^\d+[.)、]\s+(.+)$/`
unfoldable pub match_ordered : Text → Option Text
unfolding after_digits after_mark
match_ordered [] = none
match_ordered (c ∷ s) = if is_digit c then after_digits s else none

-- `line.trim().startsWith("```")` on the line without blanks at its end
unfoldable pub is_fence : Text → Bool
is_fence raw = starts_with (trim (trim_end raw)) (lit "```")

-- `listOrdered !== ordered`
abbrev pub is_other_kind : Option Bool → Bool → Bool
is_other_kind none ordered = true
is_other_kind (some b) ordered = if b then not ordered else ordered

-- An item of a list: a list of the other kind ends before it.
unfoldable pub add_list_item : Bool → Text → Reading → Reading
unfolding flush_paragraph flush_list
add_list_item ordered text s0 =
    let s1 = flush_paragraph s0 in
    let s2 =
      if not (is_empty s1.list) && is_other_kind s1.list_ordered ordered
      then flush_list s1
      else s1 in
    record s2 { list = s2.list ++ text ∷ []; list_ordered = some ordered }

unfoldable pub add_heading : ℕ × Text → Reading → Reading
add_heading (level, text) s = push_block (Block.heading level text) (flush_list (flush_paragraph s))

unfoldable pub add_paragraph : Text → Reading → Reading
add_paragraph line s0 =
    let s = flush_list s0 in record s { paragraph = s.paragraph ++ trim line ∷ [] }

-- A line outside code that is no fence, without blanks at its end.
unfoldable pub read_text : Text → Reading → Reading
read_text line s =
    if not (non_empty (trim line))
    then flush_list (flush_paragraph s)
    else elim (match_heading line) [
      | some h ↦ add_heading h s
      | none ↦ elim (match_ordered line) [
        | some text ↦ add_list_item true text s
        | none ↦ elim (match_unordered line) [
          | some text ↦ add_list_item false text s
          | none ↦ add_paragraph line s
        ]
      ]
    ]

-- A fence ends the code or begins it.
unfoldable pub toggle_code : Reading → Reading
toggle_code s =
    if s.in_code
    then record (push_block (Block.code (join (newline ∷ []) s.code)) s) {
      code = [];
      in_code = false;
    }
    else record (flush_list (flush_paragraph s)) { in_code = true }

-- One round of the loop.
unfoldable pub read_line : Reading → Text → Reading
unfolding read_text toggle_code
read_line s raw =
    if is_fence raw
    then toggle_code s
    else if s.in_code
    then record s { code = s.code ++ raw ∷ [] }
    else read_text (trim_end raw) s

unfoldable pub read_lines : Reading → List Text → Reading
read_lines s [] = s
read_lines s (raw ∷ lines) = read_lines (read_line s raw) lines

-- What follows the loop: code that no fence ends is shown, if there is any.
unfoldable pub finish : Reading → List Block
finish s =
    let s1 =
      if s.in_code && not (is_empty s.code)
      then push_block (Block.code (join (newline ∷ []) s.code)) s
      else s in
    (flush_list (flush_paragraph s1)).blocks

abbrev pub start : Reading
start = record {
  blocks = [];
  paragraph = [];
  list = [];
  list_ordered = none;
  code = [];
  in_code = false;
}

-- `content.replace(/\r\n/g, "\n")`
unfoldable pub unix_lines : Text → Text
unix_lines [] = []
unix_lines (c ∷ s) =
    let rest = unix_lines s in if c == 13 && starts_with s (newline ∷ []) then rest else c ∷ rest

unfoldable pub parse_markdown : Text → List Block
unfolding read_lines finish unix_lines
parse_markdown content = finish (read_lines start (split_lines (unix_lines content)))
