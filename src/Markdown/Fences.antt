-- ===== src/Markdown/Fences.antt =====
-- What the reader of frontend/src/components/MarkdownDocument.tsx makes of fenced code, and of code
-- that no fence ends.
use mini_agent_oscoder.Prelude.{
  ◌≡◌, refl, sym, ◌∙◌, ap, true, false, List, [], ◌∷◌, ◌++◌, append-nil, append_assoc, Text,
  newline, join, All, arith,
}
use mini_agent_oscoder.Markdown.{
  Block, Reading, push_block, flush_paragraph, flush_list, is_fence, is_empty, toggle_code,
  read_line, read_lines, finish,
}

-- A line that is no fence.
abbrev pub IsPlain : Text → Type 0
IsPlain raw = is_fence raw ≡ false

-- Outside code.
pub record IsOutside (s : Reading) : Type 0 where
  pub in_code : s.in_code ≡ false
  pub code : s.code ≡ []

inside :
    (s : Reading) (raw : Text)
    → IsPlain raw
    → s.in_code ≡ true
    → read_line s raw ≡ record s { code = s.code ++ raw ∷ [] }
unfolding read_line
inside s raw p c = simp (p, c) refl

read_lines-body :
    (s : Reading)
    → s.in_code ≡ true
    → (body rest : List Text) → All IsPlain body
    → read_lines s (body ++ rest) ≡ read_lines (record s { code = s.code ++ body }) rest
unfolding read_lines
read_lines-body s c [] rest _ =
    ap (λ xs. read_lines (record s { code = xs }) rest) (sym (append-nil s.code))
read_lines-body s c (raw ∷ body) rest (p, ps) =
    ap (λ t. read_lines t (body ++ rest)) (inside s raw p c)
    ∙ read_lines-body (record s { code = s.code ++ raw ∷ [] }) c body rest ps
    ∙ ap (λ xs. read_lines (record s { code = xs }) rest) (append_assoc s.code (raw ∷ []) body)

flush-IsOutside : (s : Reading) → IsOutside s → IsOutside (flush_list (flush_paragraph s))
unfolding flush_list flush_paragraph
flush-IsOutside s h = record { in_code = ground (arith, h.in_code); code = ground (arith, h.code) }

opened :
    (s : Reading) (open_line : Text)
    → is_fence open_line ≡ true
    → IsOutside s
    → read_line s open_line ≡ record (flush_list (flush_paragraph s)) { in_code = true }
unfolding read_line toggle_code
opened s open_line f h = simp (f, h.in_code) refl

closed :
    (s : Reading) (close_line : Text)
    → is_fence close_line ≡ true
    → s.in_code ≡ true
    → read_line s close_line ≡ record (push_block (Block.code (join (newline ∷ []) s.code)) s) {
      in_code = false;
      code = [];
    }
unfolding read_line toggle_code
closed s close_line f h = simp (f, h) refl

rebuilt :
    (s : Reading) (body : List Text)
    → IsOutside s
    → record (push_block (Block.code (join (newline ∷ []) (s.code ++ body))) s) {
      in_code = false;
      code = [];
    }
      ≡ push_block (Block.code (join (newline ∷ []) body)) s
rebuilt s body h = simp (h.code, h.in_code) refl

-- Outside code, a fence, lines that are no fences, and another fence: after the paragraph and the
-- list that were open comes one block of code, which holds the lines between as they are.
pub read_lines-fenced :
    (s : Reading) (open_line close_line : Text) (body : List Text)
    → IsOutside s
    → is_fence open_line ≡ true
    → is_fence close_line ≡ true
    → All IsPlain body
    → read_lines s (open_line ∷ (body ++ close_line ∷ []))
      ≡ push_block (Block.code (join (newline ∷ []) body)) (flush_list (flush_paragraph s))
unfolding read_lines
read_lines-fenced s open_line close_line body h o c ps =
    let t = flush_list (flush_paragraph s) in
    ap (λ r. read_lines r (body ++ close_line ∷ [])) (opened s open_line o h)
    ∙ read_lines-body (record t { in_code = true }) refl body (close_line ∷ []) ps
    ∙ closed (record t { in_code = true; code = t.code ++ body }) close_line c refl
    ∙ rebuilt t body (flush-IsOutside s h)

read_lines-open :
    (s : Reading) (open_line : Text) (body : List Text)
    → IsOutside s
    → is_fence open_line ≡ true
    → All IsPlain body
    → read_lines s (open_line ∷ body)
      ≡ record (flush_list (flush_paragraph s)) { in_code = true; code = body }
unfolding read_lines
read_lines-open s open_line body h o ps =
    let t = flush_list (flush_paragraph s) in
    ap (read_lines s) (ap (λ xs. open_line ∷ xs) (sym (append-nil body)))
    ∙ ap (λ r. read_lines r (body ++ [])) (opened s open_line o h)
    ∙ read_lines-body (record t { in_code = true }) refl body [] ps
    ∙ ap (λ xs. record t { in_code = true; code = xs ++ body }) (flush-IsOutside s h).code

finish-open :
    (t : Reading) (body : List Text)
    → IsOutside t
    → is_empty body ≡ false
    → finish (record t { in_code = true; code = body })
      ≡ finish (push_block (Block.code (join (newline ∷ []) body)) t)
unfolding finish flush_list flush_paragraph
finish-open t body h e = ground (arith, h.in_code)

-- Code that no fence ends, if it has a line, is shown as if a fence ended it.
pub finish-unfenced :
    (s : Reading) (open_line close_line : Text) (body : List Text)
    → IsOutside s
    → is_fence open_line ≡ true
    → is_fence close_line ≡ true
    → All IsPlain body
    → is_empty body ≡ false
    → finish (read_lines s (open_line ∷ body))
      ≡ finish (read_lines s (open_line ∷ (body ++ close_line ∷ [])))
finish-unfenced s open_line close_line body h o c ps e =
    let t = flush_list (flush_paragraph s) in
    ap finish (read_lines-open s open_line body h o ps)
    ∙ finish-open t body (flush-IsOutside s h) e
    ∙ ap finish (sym (read_lines-fenced s open_line close_line body h o c ps))
