-- ===== src/Keyed.antt =====
-- JavaScript maps from texts, as the lists of their values in the order of the first setting of each
-- key, where the key of a value is read off it: `new Map(xs.map((x) => [x.key, x]))`.
use mini_agent_oscoder.Prelude.{
  ◌≡◌, refl, ◌∙◌, arith, inl, inr, Bool, false, ◌||◌, Bool-cases, Option, none, some, List, [], ◌∷◌,
  Text, text_eq, text_eq_refl, text_eq_comm, eq_of_text_eq, any, find, ◌or_else◌, if◌then◌else◌,
  is_some,
}

module _ {ℓ} {A : Type ℓ} (key : A → Text) where
  -- `map.has(k)`
  unfoldable pub has : Text → List A → Bool
  has k xs = any (λ x. text_eq (key x) k) xs

  -- `map.get(k)`
  unfoldable pub get : Text → List A → Option A
  get k xs = find (λ x. text_eq (key x) k) xs

  -- `map.set(x.key, x)`
  unfoldable pub put : List A → A → List A
  put [] x = x ∷ []
  put (y ∷ ys) x = if text_eq (key y) (key x) then x ∷ ys else y ∷ put ys x

  unfoldable pub put_all : List A → List A → List A
  unfolding put
  put_all ys [] = ys
  put_all ys (x ∷ xs) = put_all (put ys x) xs

  -- The last value of a key in a list.
  unfoldable pub last_of : Text → List A → Option A
  last_of k [] = none
  last_of k (x ∷ xs) =
      let later = last_of k xs in later or_else (if text_eq (key x) k then some x else none)

  -- No key twice.
  abbrev pub HasDistinctKeys : List A → Type 0
  HasDistinctKeys [] = Unit
  HasDistinctKeys (x ∷ xs) = (has (key x) xs ≡ false) × HasDistinctKeys xs

  pub has-get : (k : Text) (xs : List A) → has k xs ≡ is_some (get k xs)
  unfolding has get
  has-get k [] = refl
  has-get k (x ∷ xs) = ground (arith, has-get k xs)

  pub get-put :
      (k : Text) (ys : List A) (x : A)
      → get k (put ys x) ≡ (if text_eq (key x) k then some x else get k ys)
  unfolding get put
  get-put k [] x = refl
  get-put k (y ∷ ys) x = ground (
    arith,
    get-put k ys x,
    eq_of_text_eq (key y) (key x),
    eq_of_text_eq (key y) k,
    eq_of_text_eq (key x) k,
    text_eq_refl k,
  )

  pub has-put :
      (k : Text) (ys : List A) (x : A) → has k (put ys x) ≡ (has k ys || text_eq (key x) k)
  has-put k ys x = rw (has-get k (put ys x), has-get k ys, get-put k ys x) ground arith

  pub put-HasDistinctKeys : (ys : List A) (x : A) → HasDistinctKeys ys → HasDistinctKeys (put ys x)
  unfolding put
  put-HasDistinctKeys [] x h = (unfold has in refl, tt)
  put-HasDistinctKeys (y ∷ ys) x h = elim (Bool-cases (text_eq (key y) (key x))) [
    | inl e ↦ rw e ((cc (eq_of_text_eq (key y) (key x) e)), h.1)
    | inr e ↦ rw e (
      ground (arith, has-put (key y) ys x, text_eq_comm (key x) (key y)),
      put-HasDistinctKeys ys x h.1,
    )
  ]

  pub put_all-HasDistinctKeys :
      (ys xs : List A) → HasDistinctKeys ys → HasDistinctKeys (put_all ys xs)
  unfolding put_all
  put_all-HasDistinctKeys ys [] h = h
  put_all-HasDistinctKeys ys (x ∷ xs) h =
      put_all-HasDistinctKeys (put ys x) xs (put-HasDistinctKeys ys x h)

  -- Of values with one key, the last is kept.
  pub get-put_all :
      (k : Text) (ys xs : List A) → get k (put_all ys xs) ≡ (last_of k xs or_else get k ys)
  unfolding put_all last_of
  get-put_all k ys [] = refl
  get-put_all k ys (x ∷ xs) = get-put_all k (put ys x) xs ∙ rw (get-put k ys x) ground arith

  pub get-put_all-nil : (k : Text) (xs : List A) → get k (put_all [] xs) ≡ last_of k xs
  get-put_all-nil k xs = get-put_all k [] xs ∙ unfold get in ground arith

  pub has-last_of : (k : Text) (xs : List A) → has k xs ≡ is_some (last_of k xs)
  unfolding has last_of
  has-last_of k [] = refl
  has-last_of k (x ∷ xs) = ground (arith, has-last_of k xs)

  -- What is found under a key has it.
  pub get_key : (k : Text) (xs : List A) {x : A} → get k xs ≡ some x → key x ≡ k
  unfolding get
  get_key k [] h = cc
  get_key k (y ∷ xs) h = elim (Bool-cases (text_eq (key y) k)) [
    | inl e ↦ cc (rw e at h, eq_of_text_eq (key y) k e)
    | inr e ↦ get_key k xs (rw e at h)
  ]
