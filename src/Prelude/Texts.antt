-- ===== src/Prelude/Texts.antt =====
-- Texts are lists of UTF-16 code units, as the methods of a JavaScript string see them.
use Prim.Native.Char.{code}
use Prim.Native.String.{String}
use Prim.Native.Nat.{ℕ, ◌+◌}
use mathlib.Core.Path.{◌≡◌, ap, refl, ◌∙◌}
use mathlib.Core.Logic.{inl, inr}
use mathlib.Core.Bool.{Bool, true, false, ◌&&◌, ◌||◌}
use mathlib.Core.List.{List, [], ◌∷◌, ◌++◌, reverse, map}
use native.Mathlib.Omega.{arith}
use mini_agent_oscoder.Prelude.Tests.{leb, ◌==◌, if◌then◌else◌, Bool-cases}
use mini_agent_oscoder.Prelude.Lists.{any}

abbrev pub Text : Type 0
Text = List ℕ

-- A literal. It stays shut, so that a proof sees one name for one literal. The literals of the
-- source hold no character beyond the basic plane, so a code point is a code unit.
unfoldable pub lit : String → Text
lit String.[] = []
lit (String.◌∷◌ c s) = code c ∷ lit s

-- `a === b`
unfoldable pub text_eq : Text → Text → Bool
text_eq [] [] = true
text_eq (a ∷ s) (b ∷ t) = a == b && text_eq s t
text_eq _ _ = false

pub text_eq_refl : (a : Text) → text_eq a a ≡ true
unfolding text_eq
text_eq_refl [] = refl
text_eq_refl (a ∷ s) = ground (arith, text_eq_refl s)

pub eq_of_text_eq : (a b : Text) → text_eq a b ≡ true → a ≡ b
unfolding text_eq
eq_of_text_eq [] [] h = refl
eq_of_text_eq [] (b ∷ t) h = ground arith
eq_of_text_eq (a ∷ s) [] h = ground arith
eq_of_text_eq (a ∷ s) (b ∷ t) h = ground (arith, eq_of_text_eq s t)

pub text_eq_comm : (a b : Text) → text_eq a b ≡ text_eq b a
unfolding text_eq
text_eq_comm [] [] = refl
text_eq_comm [] (b ∷ t) = refl
text_eq_comm (a ∷ s) [] = refl
text_eq_comm (a ∷ s) (b ∷ t) = ground (arith, text_eq_comm s t)

-- A text that passes a test is not a text that fails it.
pub text_eq-eq-false :
    (p : Text → Bool) (s w : Text) → p s ≡ true → p w ≡ false → text_eq s w ≡ false
text_eq-eq-false p s w h k = elim (Bool-cases (text_eq s w)) [
  | inl e ↦ cc (ap p (eq_of_text_eq s w e))
  | inr e ↦ e
]

-- `s.startsWith(p)`
unfoldable pub starts_with : Text → Text → Bool
starts_with s [] = true
starts_with [] (b ∷ p) = false
starts_with (a ∷ s) (b ∷ p) = a == b && starts_with s p

-- `s.endsWith(p)`
unfoldable pub ends_with : Text → Text → Bool
unfolding starts_with
ends_with s p = starts_with (reverse s) (reverse p)

-- `s.includes(p)` for a text
unfoldable pub includes : Text → Text → Bool
unfolding starts_with
includes [] p = starts_with [] p
includes (a ∷ s) p = starts_with (a ∷ s) p || includes s p

-- `[…].includes(s)` for a list of literals
abbrev pub one_of : List String → Text → Bool
one_of [] s = false
one_of (w ∷ ws) s = text_eq s (lit w) || one_of ws s

abbrev pub among : List Text → Text → Bool
among ws s = any (text_eq s) ws

-- The white space and line terminators that `trim` removes and `\s` matches.
unfoldable pub is_space : ℕ → Bool
is_space c =
    (leb 9 c && leb c 13)
    || c == 32
    || c == 160
    || c == 0x1680
    || (leb 0x2000 c && leb c 0x200a)
    || c == 0x2028
    || c == 0x2029
    || c == 0x202f
    || c == 0x205f
    || c == 0x3000
    || c == 0xfeff

unfoldable pub trim_start : Text → Text
unfolding is_space
trim_start [] = []
trim_start (c ∷ s) = let rest = trim_start s in if is_space c then rest else c ∷ s

unfoldable pub trim_end : Text → Text
unfolding trim_start
trim_end s = reverse (trim_start (reverse s))

unfoldable pub trim : Text → Text
unfolding trim_end
trim s = trim_end (trim_start s)

-- `Boolean(s)`
abbrev pub non_empty : Text → Bool
non_empty [] = false
non_empty (c ∷ s) = true

-- `a || b` on texts
abbrev pub or_text : Text → Text → Text
or_text [] b = b
or_text (c ∷ s) b = c ∷ s

-- `toLowerCase` on the ASCII letters. No other code unit is changed to a text that the source
-- compares with.
unfoldable pub lower_unit : ℕ → ℕ
lower_unit c = if leb b'A' c && leb c b'Z' then c + 32 else c

unfoldable pub to_lower : Text → Text
unfolding lower_unit
to_lower s = map lower_unit s

-- `/p/i.test(s)` for a literal pattern
unfoldable pub includes_i : Text → Text → Bool
unfolding includes to_lower
includes_i s p = includes (to_lower s) (to_lower p)

push_unit : Bool → ℕ → List Text → List Text
push_unit true c ps = [] ∷ ps
push_unit false c [] = (c ∷ []) ∷ []
push_unit false c (p ∷ ps) = (c ∷ p) ∷ ps

-- The pieces of `split` at every unit that is a separator, given what follows it: at least one.
unfoldable pub split_where : (ℕ → Text → Bool) → Text → List Text
unfolding push_unit
split_where sep [] = [] ∷ []
split_where sep (c ∷ s) = push_unit (sep c s) c (split_where sep s)

abbrev pub newline : ℕ
newline = 10

-- `s.split("\n")`
unfoldable pub split_lines : Text → List Text
unfolding split_where
split_lines = split_where (λ c _. c == newline)

-- `parts.join(sep)`
unfoldable pub join : Text → List Text → Text
join sep [] = []
join sep (p ∷ []) = p
join sep (p ∷ q ∷ ps) = p ++ (sep ++ join sep (q ∷ ps))

split_where-cons :
    (sep : ℕ → Text → Bool) (s : Text)
    → (p : Text) × (ps : List Text) × (split_where sep s ≡ p ∷ ps)
unfolding split_where
split_where-cons sep [] = ([], [], refl)
split_where-cons sep (c ∷ s) =
    let (p, ps, e) = split_where-cons sep s in
    elim (Bool-cases (sep c s)) [ inl h ↦ ([], p ∷ ps, rw (h, e)) | inr h ↦ (c ∷ p, ps, rw (h, e)) ]

join-cons :
    (sep p : Text) (q : Text) (ps : List Text)
    → join sep (p ∷ q ∷ ps) ≡ p ++ (sep ++ join sep (q ∷ ps))
unfolding join
join-cons sep p q ps = refl

join-push :
    (sep : Text) (c : ℕ) (p : Text) (ps : List Text)
    → join sep ((c ∷ p) ∷ ps) ≡ c ∷ join sep (p ∷ ps)
unfolding join
join-push sep c p [] = refl
join-push sep c p (q ∷ ps) = refl

-- Joined again, the pieces are the text, if every separator is the unit between them.
pub join-split_where :
    (sep : ℕ → Text → Bool) (d : ℕ)
    → ((c : ℕ) (s : Text) → sep c s ≡ true → c ≡ d)
    → (s : Text) → join (d ∷ []) (split_where sep s) ≡ s
unfolding split_where
join-split_where sep d only [] = unfold join in refl
join-split_where sep d only (c ∷ s) =
    let (p, ps, e) = split_where-cons sep s in
    let ih = join-split_where sep d only s in
    elim (Bool-cases (sep c s)) [
      | inl h ↦ rw (h, e, join-cons (d ∷ []) [] p ps) (rw (← e, ih, only c s h))
      | inr h ↦ rw (h, e, join-push (d ∷ []) c p ps) (rw (← e, ih))
    ]

pub join-split_lines : (s : Text) → join (newline ∷ []) (split_lines s) ≡ s
unfolding split_lines
join-split_lines s = join-split_where _ newline (λ c s h. ground arith) s

-- A blank before a text leaves its trimmed pieces.
pub split_where-blank :
    (d : ℕ) (s : Text)
    → (b' ' == d) ≡ false
    → map trim (split_where (λ c _. c == d) (b' ' ∷ s)) ≡ map trim (split_where (λ c _. c == d) s)
unfolding split_where push_unit trim trim_start
split_where-blank d s h = let (p, ps, e) = split_where-cons (λ c _. c == d) s in rw (h, e) refl

-- A text without a separator is one piece.
pub split_where-free :
    (d : ℕ) (s : Text) → any (λ c. c == d) s ≡ false → split_where (λ c _. c == d) s ≡ s ∷ []
unfolding split_where push_unit
split_where-free d [] h = refl
split_where-free d (c ∷ s) h = elim (Bool-cases (c == d)) [
  | inl e ↦ ground (arith, h, e)
  | inr e ↦ rw (e, split_where-free d s (ground (arith, h, e))) refl
]

-- The piece before the first separator.
pub split_where-append :
    (d : ℕ) (s rest : Text)
    → any (λ c. c == d) s ≡ false
    → split_where (λ c _. c == d) (s ++ (d ∷ rest)) ≡ s ∷ split_where (λ c _. c == d) rest
unfolding split_where push_unit
split_where-append d [] rest h = let e : (d == d) ≡ true = ground arith in rw e refl
split_where-append d (c ∷ s) rest h = elim (Bool-cases (c == d)) [
  | inl e ↦ ground (arith, h, e)
  | inr e ↦ rw (e, split_where-append d s rest (ground (arith, h, e))) refl
]

-- Split again at their separator, pieces without one are the pieces.
pub split_where-join :
    (d : ℕ) (p : Text) (ps : List Text)
    → any (λ q. any (λ c. c == d) q) (p ∷ ps) ≡ false
    → split_where (λ c _. c == d) (join (d ∷ []) (p ∷ ps)) ≡ p ∷ ps
unfolding join
split_where-join d p [] h = split_where-free d p (ground (arith, h))
split_where-join d p (q ∷ ps) h =
    split_where-append d p (join (d ∷ []) (q ∷ ps)) (ground (arith, h))
    ∙ ap (λ rest. p ∷ rest) (split_where-join d q ps (ground (arith, h)))
