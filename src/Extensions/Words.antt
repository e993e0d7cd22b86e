-- ===== src/Extensions/Words.antt =====
-- frontend/src/components/ExtensionPanel.tsx: how a command line is split.
use mini_agent_oscoder.Prelude.{
  ◌≡◌, refl, ap, ◌∙◌, ◌≤◌, ◌+◌, append_assoc, length-append, join, All, arith, or_default, ℕ, zero,
  suc, Bool, false, ◌||◌, Option, none, some, List, [], ◌∷◌, ◌++◌, map, Text, is_space, ◌==◌, any,
  length, if◌then◌else◌,
}
use mini_agent_oscoder.Diff.{is_terminator, map_option}

abbrev pub is_quote : ℕ → Bool
is_quote c = c == b'"' || c == b'\''

-- What stands before the next `q`, and what follows it, if there is one.
unfoldable pub close_quote : ℕ → Text → Option (Text × Text)
close_quote q [] = none
close_quote q (c ∷ s) =
    let rest = map_option (λ (inner, after). (c ∷ inner, after)) (close_quote q s) in
    if c == q then some ([], s) else rest

-- A match that ends; an empty one is none.
abbrev pub flush : Text → List Text → List Text
flush [] words = words
flush (c ∷ word) words = (c ∷ word) ∷ words

pub data UnitKind : Type 0 where
  space quote other : UnitKind

abbrev pub kind_of : ℕ → UnitKind
kind_of c = if is_space c then space else if is_quote c then quote else other

-- The matches of `/(?:[^\s"']+|"[^"]*"|'[^']*')+/g` in a text that follows the match `word`. A quote that
-- is not closed is in no match. Each step takes at least one unit, so the length of the text is enough
-- fuel.
unfoldable pub scan_words : ℕ → Text → Text → List Text
unfolding close_quote
scan_words zero word s = flush word []
scan_words (suc n) word [] = flush word []
scan_words (suc n) word (c ∷ s) = elim (kind_of c) [
  | space ↦ flush word (scan_words n [] s)
  | other ↦ scan_words n (word ++ (c ∷ [])) s
  | quote ↦ elim (close_quote c s) [
    | none ↦ flush word (scan_words n [] s)
    | some (inner, after) ↦ scan_words n (word ++ (c ∷ inner) ++ (c ∷ [])) after
  ]
]

-- `.*` up to a quote at the end.
unfoldable pub until_last : ℕ → Text → Option Text
until_last q [] = none
until_last q (c ∷ []) = if c == q then some [] else none
until_last q (c ∷ d ∷ s) =
    let rest = until_last q (d ∷ s) in
    if is_terminator c then none else map_option (λ inner. c ∷ inner) rest

-- `part.replace(/^(?:"(.*)"|'(.*)')$/, "$1$2")`
unfoldable pub strip_quotes : Text → Text
unfolding until_last
strip_quotes [] = []
strip_quotes (c ∷ s) = if is_quote c then or_default (until_last c s) (c ∷ s) else c ∷ s

unfoldable pub split_command : Text → List Text
unfolding scan_words strip_quotes
split_command value = map strip_quotes (scan_words (length value) [] value)

-- A word between double quotes.
abbrev pub quoted : Text → Text
quoted word = b'"' ∷ word ++ (b'"' ∷ [])

-- What may stand between double quotes.
abbrev pub IsQuotable : Text → Type 0
IsQuotable word = any (λ c. c == b'"' || is_terminator c) word ≡ false

close_quote-append :
    (word rest : Text)
    → IsQuotable word
    → close_quote b'"' (word ++ (b'"' ∷ rest)) ≡ some (word, rest)
unfolding close_quote
close_quote-append [] rest h = refl
close_quote-append (c ∷ word) rest h = ground (arith, h, close_quote-append word rest)

until_last-append :
    (word : Text) → IsQuotable word → until_last b'"' (word ++ (b'"' ∷ [])) ≡ some word
unfolding until_last
until_last-append [] h = refl
until_last-append (c ∷ []) h = ground (arith, h)
until_last-append (c ∷ d ∷ word) h = ground (arith, h, until_last-append (d ∷ word))

strip_quotes-quoted : (word : Text) → IsQuotable word → strip_quotes (quoted word) ≡ word
unfolding strip_quotes
strip_quotes-quoted word h = rw (until_last-append word h) refl

scan_words-quoted :
    (n : ℕ) (word rest : Text)
    → IsQuotable word
    → scan_words (suc n) [] (b'"' ∷ word ++ (b'"' ∷ rest)) ≡ scan_words n (quoted word) rest
unfolding scan_words is_space
scan_words-quoted n word rest h = rw (scan_words, close_quote-append word rest h) refl

scan_words-end : (n : ℕ) (word : Text) → scan_words n word [] ≡ flush word []
unfolding scan_words
scan_words-end zero word = refl
scan_words-end (suc n) word = refl

scan_words-space :
    (n : ℕ) (word s : Text) → scan_words (suc n) word (b' ' ∷ s) ≡ flush word (scan_words n [] s)
unfolding scan_words is_space
scan_words-space n word s = refl

abbrev pub spaced : List Text → Text
spaced words = join (b' ' ∷ []) (map quoted words)

spaced-cons :
    (word next : Text) (words : List Text)
    → spaced (word ∷ next ∷ words) ≡ b'"' ∷ word ++ (b'"' ∷ b' ' ∷ spaced (next ∷ words))
unfolding join
spaced-cons word next words = rw append_assoc refl

length-spaced :
    (word next : Text) (words : List Text)
    → length (spaced (word ∷ next ∷ words)) ≡ length word + 3 + length (spaced (next ∷ words))
length-spaced word next words =
    ap length (spaced-cons word next words)
    ∙ omega (arith, length-append word (b'"' ∷ b' ' ∷ spaced (next ∷ words)))

scan_words-spaced :
    (words : List Text) (n : ℕ)
    → All IsQuotable words
    → length (spaced words) ≤ n
    → scan_words n [] (spaced words) ≡ map quoted words
scan_words-spaced [] n h l = unfold join in scan_words-end n []
scan_words-spaced (w ∷ []) zero h l = absurd (unfold join in omega arith)
scan_words-spaced (w ∷ []) (suc n) (h, _) l =
    unfold join in scan_words-quoted n w [] h ∙ scan_words-end n (quoted w)
scan_words-spaced (w ∷ v ∷ ws) zero h l = absurd (omega (arith, l, length-spaced w v ws))
scan_words-spaced (w ∷ v ∷ ws) (suc zero) h l = absurd (omega (arith, l, length-spaced w v ws))
scan_words-spaced (w ∷ v ∷ ws) (suc (suc n)) (h, hs) l = rw (spaced-cons w v ws) (
    scan_words-quoted (suc n) w _ h
    ∙ scan_words-space n (quoted w) (spaced (v ∷ ws))
    ∙ ap (flush (quoted w))
        (scan_words-spaced (v ∷ ws) n hs (omega (arith, l, length-spaced w v ws))))

strip_quotes-map :
    (words : List Text) → All IsQuotable words → map strip_quotes (map quoted words) ≡ words
strip_quotes-map [] h = refl
strip_quotes-map (w ∷ ws) (h, hs) = rw (strip_quotes-quoted w h, strip_quotes-map ws hs) refl

-- Words between double quotes, one space apart, are split into the words themselves, whatever white
-- space they hold; provided that no word holds a double quote or ends a line.
pub split_command-spaced :
    (words : List Text) → All IsQuotable words → split_command (spaced words) ≡ words
unfolding split_command
split_command-spaced words h =
    rw (scan_words-spaced words (length (spaced words)) h omega arith) (strip_quotes-map words h)
