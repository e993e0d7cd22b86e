-- ===== src/Phases/Grouping.antt =====
-- What `buildPhaseGroups` promises: the groups are the maximal runs of equal phases, in order, and
-- their keys are distinct.
use mini_agent_oscoder.Prelude.{
  ℕ, zero, suc, ◌≡◌, ◌≢◌, refl, sym, ◌∙◌, true, false, none, some, List, [], ◌∷◌, ◌++◌,
  append_assoc, append-nil, Text, arith, if◌then◌else◌, length, last, All, All-append, ◌+◌,
  Bool-cases, inl, inr, get_elem?, ap,
}
use native.Mathlib.Nat.{add-zero, add-suc}
use mini_agent_oscoder.Decimal.{read_index, read_index-print}
use mini_agent_oscoder.Phases.{
  WorkItemPhase, same_phase, PhaseGroup, new_group, push_to_last, add_item, group_from,
  build_phase_groups,
}

module _ {T : Type 0} (phase_of : T → WorkItemPhase) where
  -- A group that is not empty and holds items of its own phase alone.
  abbrev pub IsUniform : PhaseGroup T → Type 0
  IsUniform g = (g.items ≢ []) × All (λ item. phase_of item ≡ g.phase) g.items

  -- Uniform groups, neighbours of different phases, keys that count on from `k`.
  abbrev pub AreRuns : ℕ → List (PhaseGroup T) → Type 0
  AreRuns k [] = Unit
  AreRuns k (g ∷ []) = IsUniform g × (read_index g.key ≡ k)
  AreRuns k (g ∷ h ∷ groups) =
      IsUniform g × (read_index g.key ≡ k) × (g.phase ≢ h.phase) × AreRuns (suc k) (h ∷ groups)

abbrev pub all_items : {T : Type 0} → List (PhaseGroup T) → List T
all_items [] = []
all_items (g ∷ groups) = g.items ++ all_items groups

eq_of_same_phase : (p q : WorkItemPhase) → same_phase p q ≡ true → p ≡ q
eq_of_same_phase p q h = ground arith

same_phase_refl : (p : WorkItemPhase) → same_phase p p ≡ true
same_phase_refl p = ground arith

append-ne-nil : {T : Type 0} (xs : List T) (x : T) → xs ++ x ∷ [] ≢ []
append-ne-nil [] x h = cc
append-ne-nil (y ∷ xs) x h = cc

module _ {T : Type 0} (phase_of : T → WorkItemPhase) (time_of : T → Text) where
  -- `add_item` by recursion on the groups, the first of which has number `k`.
  add_from : ℕ → List (PhaseGroup T) → T → List (PhaseGroup T)
  add_from k [] item = new_group phase_of time_of k item ∷ []
  add_from k (g ∷ []) item =
      if same_phase g.phase (phase_of item)
      then record g { items = g.items ++ item ∷ [] } ∷ []
      else g ∷ new_group phase_of time_of (suc k) item ∷ []
  add_from k (g ∷ h ∷ groups) item = g ∷ add_from (suc k) (h ∷ groups) item

  add_at : ℕ → List (PhaseGroup T) → T → List (PhaseGroup T)
  add_at k groups item = elim (last groups) [
    | none ↦ groups ++ new_group phase_of time_of (k + length groups) item ∷ []
    | some current ↦
        if same_phase current.phase (phase_of item)
        then push_to_last phase_of time_of groups item
        else groups ++ new_group phase_of time_of (k + length groups) item ∷ []
  ]

  add_at-add_from :
      (k : ℕ) (groups : List (PhaseGroup T)) (item : T)
      → add_at k groups item ≡ add_from k groups item
  unfolding add_at add_from push_to_last
  add_at-add_from k [] item = rw add-zero
  add_at-add_from k (g ∷ []) item = rw (add-suc, add-zero) (ground arith)
  add_at-add_from k (g ∷ h ∷ groups) item =
      rw (← add_at-add_from (suc k) (h ∷ groups) item) (ground arith)

  IsUniform-push :
      (g : PhaseGroup T) (item : T)
      → IsUniform phase_of g
      → phase_of item ≡ g.phase
      → IsUniform phase_of (record g { items = g.items ++ item ∷ [] })
  IsUniform-push g item u e =
      (append-ne-nil g.items item, All-append _ g.items (item ∷ []) u.1 (e, tt))

  IsUniform-new : (k : ℕ) (item : T) → IsUniform phase_of (new_group phase_of time_of k item)
  unfolding new_group
  IsUniform-new k item = ((λ e. cc), (refl, tt))

  index-new : (k : ℕ) (item : T) → read_index (new_group phase_of time_of k item).key ≡ k
  unfolding new_group
  index-new k item = read_index-print k _

  ne_of_not_same :
      (g : PhaseGroup T) (k : ℕ) (item : T)
      → same_phase g.phase (phase_of item) ≡ false
      → g.phase ≢ (new_group phase_of time_of k item).phase
  unfolding new_group
  ne_of_not_same g k item h e = cc (same_phase_refl (phase_of item))

  add_from-AreRuns :
      (k : ℕ) (groups : List (PhaseGroup T)) (item : T)
      → AreRuns phase_of k groups
      → AreRuns phase_of k (add_from k groups item)
  unfolding add_from
  add_from-AreRuns k [] item r = (IsUniform-new k item, index-new k item)
  add_from-AreRuns k (g ∷ []) item r = elim (Bool-cases (same_phase g.phase (phase_of item))) [
    | inl e ↦ rw e (IsUniform-push g item r.0 (sym (eq_of_same_phase _ _ e)), r.1)
    | inr e ↦ rw e (
      r.0,
      r.1,
      ne_of_not_same g (suc k) item e,
      (IsUniform-new (suc k) item, index-new (suc k) item),
    )
  ]
  add_from-AreRuns k (g ∷ h ∷ []) item r = elim (Bool-cases (same_phase h.phase (phase_of item))) [
    | inl e ↦
        rw e (r.0, r.1, r.2, (IsUniform-push h item r.3.0 (sym (eq_of_same_phase _ _ e)), r.3.1))
    | inr e ↦ rw e (
      r.0,
      r.1,
      r.2,
      (
        r.3.0,
        r.3.1,
        ne_of_not_same h (suc (suc k)) item e,
        (IsUniform-new (suc (suc k)) item, index-new (suc (suc k)) item),
      ),
    )
  ]
  add_from-AreRuns k (g ∷ h ∷ i ∷ groups) item r =
      (r.0, r.1, r.2, add_from-AreRuns (suc k) (h ∷ i ∷ groups) item r.3)

  all_items-add_from :
      (k : ℕ) (groups : List (PhaseGroup T)) (item : T)
      → all_items (add_from k groups item) ≡ all_items groups ++ item ∷ []
  unfolding add_from new_group
  all_items-add_from k [] item = refl
  all_items-add_from k (g ∷ []) item =
      ground (arith, append-nil g.items, append-nil (g.items ++ item ∷ []))
  all_items-add_from k (g ∷ h ∷ groups) item =
      simp (all_items-add_from (suc k) (h ∷ groups) item, append_assoc)

  add_item-add_from :
      (groups : List (PhaseGroup T)) (item : T)
      → add_item phase_of time_of groups item ≡ add_from 0 groups item
  unfolding add_item add_at
  add_item-add_from groups item = ground (arith, add_at-add_from 0 groups item)

  group_from-AreRuns :
      (groups : List (PhaseGroup T)) (items : List T)
      → AreRuns phase_of 0 groups
      → AreRuns phase_of 0 (group_from phase_of time_of groups items)
  unfolding group_from
  group_from-AreRuns groups [] r = r
  group_from-AreRuns groups (item ∷ items) r =
      group_from-AreRuns (add_item phase_of time_of groups item) items
        (rw (add_item-add_from groups item) (add_from-AreRuns 0 groups item r))

  all_items-group_from :
      (groups : List (PhaseGroup T)) (items : List T)
      → all_items (group_from phase_of time_of groups items) ≡ all_items groups ++ items
  unfolding group_from
  all_items-group_from groups [] = sym (append-nil _)
  all_items-group_from groups (item ∷ items) =
      all_items-group_from (add_item phase_of time_of groups item) items
      ∙ rw (add_item-add_from groups item, all_items-add_from 0 groups item)
          (append_assoc (all_items groups) (item ∷ []) items)

  -- No item is lost, repeated or moved by the grouping.
  pub all_items-build_phase_groups :
      (items : List T) → all_items (build_phase_groups phase_of time_of items) ≡ items
  unfolding build_phase_groups
  all_items-build_phase_groups items = all_items-group_from [] items

  -- Every group is a non-empty run of items of its own phase, neighbouring groups differ in phase,
  -- and what is read as a number at the beginning of a group's key is the number of the group.
  pub build_phase_groups-AreRuns :
      (items : List T) → AreRuns phase_of 0 (build_phase_groups phase_of time_of items)
  unfolding build_phase_groups
  build_phase_groups-AreRuns items = group_from-AreRuns [] items tt

  index-get_elem? :
      (k : ℕ) (groups : List (PhaseGroup T)) (i : ℕ) {g : PhaseGroup T}
      → AreRuns phase_of k groups
      → get_elem? groups i ≡ some g
      → read_index g.key ≡ k + i
  index-get_elem? k [] i r e = cc
  index-get_elem? k (g ∷ []) zero r e = ground arith
  index-get_elem? k (g ∷ []) (suc i) r e = cc
  index-get_elem? k (g ∷ h ∷ groups) zero r e = ground arith
  index-get_elem? k (g ∷ h ∷ groups) (suc i) r e =
      omega (arith, index-get_elem? (suc k) (h ∷ groups) i r.3 e)

  -- Two groups of the result that have the same key are the same group, so the keys can serve as
  -- the keys of a rendered list.
  pub build_phase_groups-distinct_keys :
      (items : List T) (i j : ℕ) {g h : PhaseGroup T}
      → get_elem? (build_phase_groups phase_of time_of items) i ≡ some g
      → get_elem? (build_phase_groups phase_of time_of items) j ≡ some h
      → g.key ≡ h.key
      → i ≡ j
  build_phase_groups-distinct_keys items i j p q same =
      let runs = build_phase_groups-AreRuns items in
      let at_i = index-get_elem? 0 _ i runs p in
      let at_j = index-get_elem? 0 _ j runs q in omega (arith, at_i, at_j, ap read_index same)
