-- ===== src/Run/Helpers/Checkpoints.antt =====
-- Which checkpoint a rejection goes back to.
use mini_agent_oscoder.Prelude.{
  ◌≤◌, ◌≡◌, refl, Option, none, some, List, [], ◌∷◌, Text, first, keep, leb, arith, All, Any, here,
  there, Bool-cases, inl, inr,
}
use mini_agent_oscoder.Run.Helpers.{
  Checkpoint, is_restorable, insert_point, sort_points, latest_restorable_checkpoint,
}

-- Every point of the list comes no later than `p` in the trace.
abbrev pub NoneAfter : Checkpoint → List Checkpoint → Type 0
NoneAfter p = All (λ q. q.trace_offset ≤ p.trace_offset)

-- `p` is in the list, and no point of the list has a greater offset.
pub record IsLatest (p : Checkpoint) (points : List Checkpoint) : Type 0 where
  pub listed : Any (λ q. q ≡ p) points
  pub latest : NoneAfter p points

-- The head of a sorted list is a latest point.
abbrev HeadIsLatest : Option Checkpoint → List Checkpoint → Type 0
HeadIsLatest none points = points ≡ []
HeadIsLatest (some p) points = IsLatest p points

weaken :
    (p q : Checkpoint) (points : List Checkpoint)
    → p.trace_offset ≤ q.trace_offset
    → NoneAfter p points
    → NoneAfter q points
weaken p q [] le h = tt
weaken p q (r ∷ points) le (hr, h) = (omega arith, weaken p q points le h)

head_of_insert :
    (p : Checkpoint) (sorted points : List Checkpoint)
    → HeadIsLatest (first sorted) points
    → HeadIsLatest (first (insert_point p sorted)) (p ∷ points)
unfolding insert_point
head_of_insert p [] points h = rw h (record { listed = here refl; latest = (omega arith, tt) })
head_of_insert p (q ∷ sorted) points h = elim (Bool-cases (leb q.trace_offset p.trace_offset)) [
  | inl e ↦ rw e (record {
    listed = here refl;
    latest = (omega arith, weaken q p points (ground arith) h.latest);
  })
  | inr e ↦ rw e (record { listed = there h.listed; latest = (ground arith, h.latest) })
]

head_of_sort : (points : List Checkpoint) → HeadIsLatest (first (sort_points points)) points
unfolding sort_points
head_of_sort [] = refl
head_of_sort (p ∷ points) = head_of_insert p (sort_points points) points (head_of_sort points)

-- The checkpoint that is chosen can be restored, and no checkpoint that can be restored is later in
-- the trace.
pub latest_restorable_checkpoint_sound :
    (points : List Checkpoint) {id : Text}
    → latest_restorable_checkpoint (some points) ≡ some id
    → (p : Checkpoint) × (p.checkpoint_id ≡ id) × IsLatest p (keep is_restorable points)
unfolding latest_restorable_checkpoint
latest_restorable_checkpoint_sound points {id} h =
    chosen (first (sort_points (keep is_restorable points)))
      (head_of_sort (keep is_restorable points)) h
  where
    chosen :
        (o : Option Checkpoint)
        → HeadIsLatest o (keep is_restorable points)
        → elim o as (λ _. Option Text) [ none ↦ none | some p ↦ some p.checkpoint_id ] ≡ some id
        → (p : Checkpoint) × (p.checkpoint_id ≡ id) × IsLatest p (keep is_restorable points)
    chosen none l e = cc
    chosen (some p) l e = (p, ground arith, l)

-- None is chosen exactly when no checkpoint can be restored.
pub latest_restorable_checkpoint-none :
    (points : List Checkpoint)
    → latest_restorable_checkpoint (some points) ≡ none
    → keep is_restorable points ≡ []
unfolding latest_restorable_checkpoint
latest_restorable_checkpoint-none points h =
    absent (first (sort_points (keep is_restorable points)))
      (head_of_sort (keep is_restorable points)) h
  where
    absent :
        (o : Option Checkpoint)
        → HeadIsLatest o (keep is_restorable points)
        → elim o as (λ _. Option Text) [ none ↦ none | some p ↦ some p.checkpoint_id ] ≡ none
        → keep is_restorable points ≡ []
    absent none l e = l
    absent (some p) l e = cc
