-- ===== src/Diff/Focus/Hunks.antt =====
-- Where the review opens: the hunk that is chosen, and the positions of the hunks.
use mini_agent_oscoder.Prelude.{
  ℕ, zero, suc, ◌+◌, ◌≤◌, ◌==◌, ◌≡◌, refl, sym, ◌∙◌, ap, ◌⊎◌, ◌≢◌, inl, inr, Bool, true, false,
  Option, none, some, List, [], ◌∷◌, Text, text_eq, eq_of_text_eq, trim, non_empty, split_lines,
  ◌or_else◌, first, find, get_elem?, arith, Bool-cases, All,
}
use native.Mathlib.Nat.{add-zero}
use mini_agent_oscoder.Diff.{map_option, split_chunks}
use mini_agent_oscoder.Diff.Focus.{
  is_hunk, hunk_in, focused_patch_hunk, find_index, exact_index, diff_focus_index,
  hunk_indexes_from, diff_hunk_indexes,
}

find_sound : {A : Type 0} (p : A → Bool) (xs : List A) {x : A} → find p xs ≡ some x → p x ≡ true
find_sound p [] h = cc
find_sound p (y ∷ xs) h = elim (Bool-cases (p y)) [
  | inl e ↦ cc (rw e at h)
  | inr e ↦ find_sound p xs (rw e at h)
]

find-none : {A : Type 0} (p : A → Bool) (xs : List A) → find p xs ≡ none → All (λ x. p x ≡ false) xs
find-none p [] h = tt
find-none p (y ∷ xs) h = elim (Bool-cases (p y)) [
  | inl e ↦ cc (rw e at h)
  | inr e ↦ (e, find-none p xs (rw e at h))
]

hunk_in_sound :
    (focus : Option Text) (chunks : List Text) {h : Text}
    → hunk_in focus chunks ≡ some h
    → is_hunk h ≡ true
unfolding hunk_in
hunk_in_sound focus [] e = cc
hunk_in_sound focus (chunk ∷ chunks) {h} e =
    ground
      (arith, find_sound is_hunk (split_lines chunk) {x = h}, hunk_in_sound focus chunks {h = h})

-- What is chosen as the hunk to open at is the header line of a hunk.
pub focused_patch_hunk_sound :
    (patch : Text) (focus : Option Text) {h : Text}
    → focused_patch_hunk patch focus ≡ some h
    → is_hunk h ≡ true
unfolding focused_patch_hunk
focused_patch_hunk_sound patch focus {h} e = ground (
  arith,
  find_sound is_hunk (split_lines patch) {x = h},
  hunk_in_sound focus (split_chunks (trim patch)) {h = h},
)

-- Where none is chosen, no line of the patch begins a hunk.
pub focused_patch_hunk-none :
    (patch : Text) (focus : Option Text)
    → focused_patch_hunk patch focus ≡ none
    → All (λ line. is_hunk line ≡ false) (split_lines patch)
unfolding focused_patch_hunk
focused_patch_hunk-none patch focus e = find-none is_hunk (split_lines patch) (ground arith)

shift :
    (i : ℕ) (o : Option ℕ)
    → map_option (λ k. suc i + k) o ≡ map_option (λ k. i + k) (map_option suc o)
shift i none = refl
shift i (some k) = ap {B = Option ℕ} some (omega arith)

unshift : (o : Option ℕ) → map_option (λ k. 0 + k) o ≡ o
unshift none = refl
unshift (some k) = ap {B = Option ℕ} some (omega arith)

first-hunk_indexes_from :
    (i : ℕ) (lines : List Text)
    → first (hunk_indexes_from i lines) ≡ map_option (λ k. i + k) (find_index is_hunk lines)
unfolding hunk_indexes_from find_index
first-hunk_indexes_from i [] = refl
first-hunk_indexes_from i (line ∷ lines) = elim (Bool-cases (is_hunk line)) [
  | inl e ↦ rw e (ground (arith, add-zero i))
  | inr e ↦ rw e (first-hunk_indexes_from (suc i) lines ∙ shift i (find_index is_hunk lines))
]

-- With no hunk to look for, the review opens at the first of the positions between which its buttons
-- move, and at none if there is none.
pub diff_focus_index-first :
    (lines : List Text) → diff_focus_index lines none ≡ first (diff_hunk_indexes lines)
unfolding diff_focus_index diff_hunk_indexes
diff_focus_index-first lines =
    sym (first-hunk_indexes_from 0 lines ∙ unshift (find_index is_hunk lines))

not_zero : (o : Option ℕ) → map_option suc o ≢ some 0
not_zero none h = cc
not_zero (some k) h = ground arith

not_suc : (i : ℕ) → some 0 ≢ some (suc i)
not_suc i h = ground arith

before : (o : Option ℕ) (i : ℕ) → map_option suc o ≡ some (suc i) → o ≡ some i
before none i h = cc
before (some k) i h = ground arith

no_index : (i : ℕ) → none ≢ some i
no_index i h = cc

find_index_sound :
    {A : Type 0} (p : A → Bool) (xs : List A) (i : ℕ)
    → find_index p xs ≡ some i
    → (x : A) × (get_elem? xs i ≡ some x) × (p x ≡ true)
unfolding find_index
find_index_sound p [] i h = cc
find_index_sound p (y ∷ xs) zero h = elim (Bool-cases (p y)) [
  | inl e ↦ (y, refl, e)
  | inr e ↦ absurd (not_zero (find_index p xs) (rw e at h))
]
find_index_sound p (y ∷ xs) (suc i) h = elim (Bool-cases (p y)) [
  | inl e ↦ absurd (not_suc i (rw e at h))
  | inr e ↦ find_index_sound p xs i (before (find_index p xs) i (rw e at h))
]

exact_index_sound :
    (lines : List Text) (focus : Text) (i : ℕ)
    → exact_index lines (some focus) ≡ some i
    → (line : Text) × (get_elem? lines i ≡ some line) × (line ≡ focus) × (non_empty focus ≡ true)
unfolding exact_index
exact_index_sound lines focus i h = elim (Bool-cases (non_empty focus)) [
  | inl e ↦
      let (line, there, same) = find_index_sound (λ l. text_eq l focus) lines i (rw e at h) in
      (line, there, eq_of_text_eq line focus same, e)
  | inr e ↦ absurd (no_index i (rw e at h))
]

chosen :
    (lines : List Text) (focus : Text) (i : ℕ) (o : Option ℕ)
    → exact_index lines (some focus) ≡ o
    → (o or_else find_index is_hunk lines) ≡ some i
    → (line : Text) × (get_elem? lines i ≡ some line)
      × (((line ≡ focus) × (non_empty focus ≡ true)) ⊎ (is_hunk line ≡ true))
chosen lines focus i none e h =
    let (line, there, hunk) = find_index_sound is_hunk lines i h in (line, there, inr hunk)
chosen lines focus i (some k) e h =
    let (line, there, same, given) = exact_index_sound lines focus i (e ∙ h) in
    (line, there, inl (same, given))

-- The review opens at the very line that it is told, if the file has it, and else at a hunk.
pub diff_focus_index_sound :
    (lines : List Text) (focus : Text) (i : ℕ)
    → diff_focus_index lines (some focus) ≡ some i
    → (line : Text) × (get_elem? lines i ≡ some line)
      × (((line ≡ focus) × (non_empty focus ≡ true)) ⊎ (is_hunk line ≡ true))
unfolding diff_focus_index
diff_focus_index_sound lines focus i h =
    chosen lines focus i (exact_index lines (some focus)) refl h

-- Numbers that grow, from `b` on.
abbrev pub IsAscending : ℕ → List ℕ → Type 0
IsAscending b [] = Unit
IsAscending b (i ∷ is) = (b ≤ i) × IsAscending (suc i) is

IsAscending-suc : (b : ℕ) (is : List ℕ) → IsAscending (suc b) is → IsAscending b is
IsAscending-suc b [] h = tt
IsAscending-suc b (i ∷ is) (l, h) = (omega arith, h)

hunk_indexes_from-IsAscending :
    (b : ℕ) (lines : List Text) → IsAscending b (hunk_indexes_from b lines)
unfolding hunk_indexes_from
hunk_indexes_from-IsAscending b [] = tt
hunk_indexes_from-IsAscending b (line ∷ lines) = elim (Bool-cases (is_hunk line)) [
  | inl e ↦ rw e (omega arith, hunk_indexes_from-IsAscending (suc b) lines)
  | inr e ↦ rw e (IsAscending-suc b _ (hunk_indexes_from-IsAscending (suc b) lines))
]

pub diff_hunk_indexes-IsAscending : (lines : List Text) → IsAscending 0 (diff_hunk_indexes lines)
unfolding diff_hunk_indexes
diff_hunk_indexes-IsAscending lines = hunk_indexes_from-IsAscending 0 lines

IsAscending-least :
    (b : ℕ) (is : List ℕ) (n : ℕ) {i : ℕ} → IsAscending b is → get_elem? is n ≡ some i → b ≤ i
IsAscending-least b [] n h e = cc
IsAscending-least b (j ∷ is) zero h e = ground arith
IsAscending-least b (j ∷ is) (suc n) (l, h) e = omega (arith, l, IsAscending-least (suc j) is n h e)

-- A number that grows stands at one place.
pub find_index_of_IsAscending :
    (b : ℕ) (is : List ℕ) (n : ℕ) {i : ℕ}
    → IsAscending b is
    → get_elem? is n ≡ some i
    → find_index (λ j. j == i) is ≡ some n
unfolding find_index
find_index_of_IsAscending b [] n h e = cc
find_index_of_IsAscending b (j ∷ is) zero h e = ground arith
find_index_of_IsAscending b (j ∷ is) (suc n) {i} (l, h) e =
    ground (arith, IsAscending-least (suc j) is n h e, find_index_of_IsAscending (suc j) is n h e)
