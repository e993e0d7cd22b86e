-- ===== src/Files/Dialog/Moves.antt =====
-- The moves between the hunks of a file in frontend/src/components/WorkspaceFilesDialog.tsx.
use mini_agent_oscoder.Prelude.{
  ◌≡◌, refl, arith, inl, inr, ◌⊎◌, ℕ, zero, suc, ◌+◌, ◌<◌, ltb, Bool-cases, some, List, [], ◌∷◌,
  Text, length, get_elem?,
}
use mini_agent_oscoder.Diff.Focus.{diff_hunk_indexes}
use mini_agent_oscoder.Diff.Focus.Hunks.{
  IsAscending, diff_hunk_indexes-IsAscending, find_index_of_IsAscending,
}
use mini_agent_oscoder.Files.Dialog.{
  FilesDialog, Direction, previous, next, position_of, step_from, move_hunk,
}

get_elem?-some :
    {A : Type 0} (xs : List A) (n : ℕ) → n < length xs → (x : A) × (get_elem? xs n ≡ some x)
get_elem?-some [] n h = absurd (omega arith)
get_elem?-some (x ∷ xs) zero h = (x, refl)
get_elem?-some (x ∷ xs) (suc n) h = get_elem?-some xs n omega arith

get_elem?-lt : {A : Type 0} (xs : List A) (n : ℕ) {x : A} → get_elem? xs n ≡ some x → n < length xs
get_elem?-lt [] n h = cc
get_elem?-lt (x ∷ xs) zero h = omega arith
get_elem?-lt (x ∷ xs) (suc n) h = omega (arith, get_elem?-lt xs n h)

step_from-lt : (d : Direction) (n total : ℕ) → n < total → step_from d n total < total
step_from-lt previous n total h = omega arith
step_from-lt next n total h = ground arith

move_in :
    (d : Direction) (is : List ℕ) (w : FilesDialog) (n : ℕ) {i : ℕ}
    → IsAscending 0 is
    → get_elem? is n ≡ some i
    → w.active_hunk_index ≡ some i
    → position_of (move_hunk d is w).active_hunk_index is ≡ some (step_from d n (length is))
unfolding move_hunk
move_in d [] w n h e a = cc
move_in d (j ∷ is) w n h e a =
    let m = step_from d n (length (j ∷ is)) in
    let (k, there) = get_elem?-some (j ∷ is) m (step_from-lt d n _ (get_elem?-lt (j ∷ is) n e)) in
    simp (a, find_index_of_IsAscending 0 (j ∷ is) n h e, there)
      (find_index_of_IsAscending 0 (j ∷ is) m h there)

-- One place on or back among `total`, staying at the two ends.
abbrev pub IsMove : Direction → (total n m : ℕ) → Type 0
IsMove previous total n m = ((n ≡ 0) × (m ≡ 0)) ⊎ ((0 < n) × (m + 1 ≡ n))
IsMove next total n m = ((n + 1 ≡ total) × (m ≡ n)) ⊎ ((n + 1 < total) × (m ≡ n + 1))

step_from-IsMove :
    (d : Direction) (n total : ℕ) → n < total → IsMove d total n (step_from d n total)
step_from-IsMove previous zero total h = inl (refl, refl)
step_from-IsMove previous (suc n) total h = inr (omega arith, omega arith)
step_from-IsMove next n total h = elim (Bool-cases (ltb (n + 1) total)) [
  | inl e ↦ inr (ground (arith, e), ground (arith, e))
  | inr e ↦ inl (ground (arith, e), ground (arith, e))
]

-- From the hunk at place `n` of a file, the button for the previous hunk moves to the hunk at the place
-- before it, and at the first hunk stays there; the button for the next hunk moves to the hunk at the
-- place after it, and at the last hunk stays there; so a move never leaves the file's hunks.
pub move_hunk-position :
    (d : Direction) (lines : List Text) (w : FilesDialog) (n : ℕ) {i : ℕ}
    → get_elem? (diff_hunk_indexes lines) n ≡ some i
    → w.active_hunk_index ≡ some i
    → (m : ℕ) × (position_of
          (move_hunk d (diff_hunk_indexes lines) w).active_hunk_index
          (diff_hunk_indexes lines)
        ≡ some m)
      × (m < length (diff_hunk_indexes lines))
      × IsMove d (length (diff_hunk_indexes lines)) n m
move_hunk-position d lines w n e a =
    let is = diff_hunk_indexes lines in
    let h = get_elem?-lt is n e in
    (
      step_from d n (length is),
      move_in d is w n (diff_hunk_indexes-IsAscending lines) e a,
      step_from-lt d n (length is) h,
      step_from-IsMove d n (length is) h,
    )
