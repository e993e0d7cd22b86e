-- ===== src/Markdown/Tests.antt =====
-- A document with every kind of block, read as the page reads it, and the theorems at its parts.
use mini_agent_oscoder.Prelude.{
  ◌≡◌, refl, true, false, [], ◌∷◌, Text, lit, starts_with, ends_with, trim, trim_end, trim_start,
  split_lines, join, is_space,
}
use mini_agent_oscoder.Diff.{whole_rest}
use mini_agent_oscoder.Markdown.{
  Block, flush_paragraph, flush_list, is_fence, read_text, match_heading, match_ordered,
  match_unordered, add_list_item, add_heading, add_paragraph, toggle_code, read_line, read_lines,
  finish, unix_lines, parse_markdown, after_blanks,
}
use mini_agent_oscoder.Markdown.Inline.{
  match_code, match_strong, parts, split_from, render_inline, inline_node, render_strong,
  strong_piece, to_tick, code, fragment, strong, plain,
}

abbrev document : Text
document = lit "# Title\r\nsome\n text \n- a\n1. b\n2) c\n\n```js\n x  \n```"

blocks-document :
    parse_markdown document
    ≡ Block.heading 1 (lit "Title")
      ∷ Block.paragraph (lit "some text")
      ∷ Block.list false (lit "a" ∷ [])
      ∷ Block.list true (lit "b" ∷ lit "c" ∷ [])
      ∷ Block.code (lit " x  ")
      ∷ []
unfolding parse_markdown read_lines read_line read_text toggle_code is_fence match_heading
    match_ordered match_unordered after_blanks whole_rest add_list_item add_heading add_paragraph
    flush_paragraph flush_list finish unix_lines split_lines trim trim_end trim_start starts_with
    join lit is_space
blocks-document = refl

-- An opened fence with nothing behind it leaves no block.
blocks-bare_fence : parse_markdown (lit "```") ≡ []
unfolding parse_markdown read_lines read_line read_text toggle_code is_fence flush_paragraph
    flush_list finish unix_lines split_lines trim trim_end trim_start starts_with lit is_space
blocks-bare_fence = refl

inline-mixed :
    render_inline (lit "a `b` **c**")
    ≡ fragment (plain (lit "a ") ∷ [])
      ∷ code (lit "b")
      ∷ fragment (plain (lit " ") ∷ strong (lit "c") ∷ [])
      ∷ []
unfolding render_inline inline_node render_strong strong_piece match_code match_strong parts
    split_from starts_with ends_with lit to_tick
inline-mixed = refl

-- A backtick that stands alone is shown as empty code.
inline-lone_tick : render_inline (lit "`") ≡ code [] ∷ []
unfolding render_inline inline_node match_code parts split_from starts_with ends_with lit to_tick
inline-lone_tick = refl
