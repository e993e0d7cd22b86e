-- ===== src/Markdown/Blocks.antt =====
-- What the reader of frontend/src/components/MarkdownDocument.tsx makes of lines, of fenced code and
-- of code that no fence ends.
use mini_agent_oscoder.Prelude.{◌≡◌, ◌≤◌, true, false, Text, non_empty, All}
use mini_agent_oscoder.Markdown.{Block, Reading, is_empty}

abbrev pub IsFull : Text → Type 0
IsFull t = non_empty t ≡ true

-- A block that has something to show.
abbrev pub IsSolid : Block → Type 0
IsSolid (Block.heading level text) = (1 ≤ level) × (level ≤ 3) × IsFull text
IsSolid (Block.paragraph text) = IsFull text
IsSolid (Block.list ordered items) = (is_empty items ≡ false) × All IsFull items
IsSolid (Block.code text) = Unit

abbrev IsSound : Reading → Type 0
IsSound s = All IsSolid s.blocks × All IsFull s.paragraph × All IsFull s.list
