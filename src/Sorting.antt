-- ===== src/Sorting.antt =====
-- The sort of the language: stable, by a test `le` of whether one element may stand before another.
use mini_agent_oscoder.Prelude.{
  ◌≡◌, sym, ◌∙◌, refl, arith, inl, inr, Bool, true, false, ◌||◌, Bool-cases, List, [], ◌∷◌, Text,
  text_eq, text_eq_refl, text_eq_comm, eq_of_text_eq, if◌then◌else◌,
}
use mini_agent_oscoder.Keyed.{has, get, HasDistinctKeys}

module _ {ℓ} {A : Type ℓ} (le : A → A → Bool) where
  unfoldable pub insert : A → List A → List A
  insert x [] = x ∷ []
  insert x (y ∷ ys) = if le x y then x ∷ y ∷ ys else y ∷ insert x ys

  unfoldable pub sort : List A → List A
  unfolding insert
  sort [] = []
  sort (x ∷ xs) = insert x (sort xs)

  -- The first of a list, if there is one, may follow `x`.
  abbrev pub MayFollow : A → List A → Type 0
  MayFollow x [] = Unit
  MayFollow x (y ∷ ys) = le x y ≡ true

  -- Each element may stand before the next one.
  abbrev pub IsOrdered : List A → Type 0
  IsOrdered [] = Unit
  IsOrdered (x ∷ xs) = MayFollow x xs × IsOrdered xs

  insert-MayFollow :
      (x y : A) (xs : List A) → le x y ≡ true → MayFollow x xs → MayFollow x (insert y xs)
  unfolding insert
  insert-MayFollow x y [] h k = h
  insert-MayFollow x y (z ∷ xs) h k = elim (Bool-cases (le y z)) [ inl e ↦ rw e h | inr e ↦ rw e k ]

  insert-IsOrdered :
      ((x y : A) → le x y ≡ false → le y x ≡ true)
      → (y : A) (xs : List A) → IsOrdered xs
      → IsOrdered (insert y xs)
  unfolding insert
  insert-IsOrdered total y [] h = (tt, tt)
  insert-IsOrdered total y (x ∷ xs) (m, h) = elim (Bool-cases (le y x)) [
    | inl e ↦ rw e (e, (m, h))
    | inr e ↦ rw e (insert-MayFollow x y xs (total y x e) m, insert-IsOrdered total y xs h)
  ]

  pub sort-IsOrdered :
      ((x y : A) → le x y ≡ false → le y x ≡ true) → (xs : List A) → IsOrdered (sort xs)
  unfolding sort
  sort-IsOrdered total [] = tt
  sort-IsOrdered total (x ∷ xs) = insert-IsOrdered total x _ (sort-IsOrdered total xs)

  -- Sorted values are found under their keys as before.
  module _ (key : A → Text) where
    has-insert :
        (k : Text) (x : A) (xs : List A)
        → has key k (insert x xs) ≡ (text_eq (key x) k || has key k xs)
    unfolding insert has
    has-insert k x [] = refl
    has-insert k x (y ∷ xs) = ground (arith, has-insert k x xs)

    get-insert :
        (k : Text) (x : A) (xs : List A)
        → has key (key x) xs ≡ false
        → get key k (insert x xs) ≡ get key k (x ∷ xs)
    unfolding insert get has
    get-insert k x [] h = refl
    get-insert k x (y ∷ xs) h =
        ground (
          arith,
          get-insert k x xs,
          eq_of_text_eq (key y) k,
          eq_of_text_eq (key x) k,
          text_eq_refl k,
        )

    insert-HasDistinctKeys :
        (x : A) (xs : List A)
        → has key (key x) xs ≡ false
        → HasDistinctKeys key xs
        → HasDistinctKeys key (insert x xs)
    unfolding insert has
    insert-HasDistinctKeys x [] n h = (n, tt)
    insert-HasDistinctKeys x (y ∷ xs) n (m, h) = elim (Bool-cases (le x y)) [
      | inl e ↦ rw e (n, (m, h))
      | inr e ↦ rw e (
        ground (arith, n, m, has-insert (key y) x xs, text_eq_comm (key x) (key y)),
        insert-HasDistinctKeys x xs (ground (arith, n)) h,
      )
    ]

    get-cons :
        (k : Text) (x : A) (xs ys : List A)
        → get key k xs ≡ get key k ys
        → get key k (x ∷ xs) ≡ get key k (x ∷ ys)
    unfolding get
    get-cons k x xs ys h = rw h refl

    has-cons :
        (k : Text) (x : A) (xs : List A) → has key k (x ∷ xs) ≡ (text_eq (key x) k || has key k xs)
    unfolding has
    has-cons k x xs = refl

    pub sort-lookup :
        (k : Text) (xs : List A)
        → HasDistinctKeys key xs
        → (get key k (sort xs) ≡ get key k xs)
          × HasDistinctKeys key (sort xs)
          × (has key k (sort xs) ≡ has key k xs)
    unfolding sort
    sort-lookup k [] h = (refl, tt, refl)
    sort-lookup k (x ∷ xs) (n, h) =
        let (g, d, m) = sort-lookup k xs h in
        let fresh : has key (key x) (sort xs) ≡ false = (sort-lookup (key x) xs h).2 ∙ n in
        (
          get-insert k x (sort xs) fresh ∙ get-cons k x _ xs g,
          insert-HasDistinctKeys x (sort xs) fresh d,
          has-insert k x (sort xs) ∙ rw m (sym (has-cons k x xs)),
        )
