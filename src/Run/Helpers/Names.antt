-- ===== src/Run/Helpers/Names.antt =====
-- What `basename` gives.
use mini_agent_oscoder.Prelude.{
  ℕ, ◌≡◌, refl, ◌∙◌, true, false, List, [], ◌∷◌, ◌++◌, some, Text, split_where, non_empty, or_text,
  last, arith, Bool-cases, inl, inr, All,
}
use mini_agent_oscoder.Run.Helpers.{is_separator, strip_end, split_path, basename}

-- No unit is a separator; every unit is one.
abbrev pub IsName : Text → Type 0
IsName = All (λ c. is_separator c ≡ false)

abbrev pub AreSeparators : Text → Type 0
AreSeparators = All (λ c. is_separator c ≡ true)

strip_end-separators : (s : Text) → AreSeparators s → strip_end s ≡ []
unfolding strip_end
strip_end-separators [] h = refl
strip_end-separators (c ∷ s) (hc, hs) = rw (strip_end-separators s hs, hc)

strip_end-name :
    (name seps : Text) → IsName name → AreSeparators seps → strip_end (name ++ seps) ≡ name
unfolding strip_end
strip_end-name [] seps h k = strip_end-separators seps k
strip_end-name (c ∷ s) seps (hc, hs) k = rw (strip_end-name s seps hs k, hc)

non_empty-append : (dir t : Text) → non_empty t ≡ true → non_empty (dir ++ t) ≡ true
non_empty-append [] t h = h
non_empty-append (c ∷ dir) t h = refl

strip_end-append :
    (dir s : Text) → non_empty (strip_end s) ≡ true → strip_end (dir ++ s) ≡ dir ++ strip_end s
unfolding strip_end
strip_end-append [] s h = refl
strip_end-append (c ∷ dir) s h =
    rw (strip_end-append dir s h) (ground (arith, non_empty-append dir (strip_end s) h))

split_path-name : (name : Text) → IsName name → split_path name ≡ name ∷ []
unfolding split_where
split_path-name [] h = refl
split_path-name (c ∷ s) (hc, hs) = rw (split_path-name s hs, hc)

-- Behind a separator the pieces go on as those of the rest, behind at least one.
split_path-append :
    (dir : Text) (d : ℕ) (s : Text)
    → is_separator d ≡ true
    → (p : Text) × (ps : List Text) × (split_path (dir ++ d ∷ s) ≡ p ∷ (ps ++ split_path s))
unfolding split_where
split_path-append [] d s h = ([], [], rw h)
split_path-append (c ∷ dir) d s h =
    let (p, ps, e) = split_path-append dir d s h in
    elim (Bool-cases (is_separator c)) [
      | inl k ↦ ([], p ∷ ps, rw (k, e))
      | inr k ↦ (c ∷ p, ps, rw (k, e))
    ]

last-append : (p : Text) (ps : List Text) (x : Text) → last (p ∷ (ps ++ x ∷ [])) ≡ some x
last-append p [] x = refl
last-append p (q ∷ ps) x = last-append q ps x

strip_end-cons :
    (dir : Text) (d : ℕ) (name seps : Text)
    → IsName name
    → non_empty name ≡ true
    → AreSeparators seps
    → strip_end (dir ++ d ∷ (name ++ seps)) ≡ dir ++ d ∷ name
strip_end-cons dir d name seps n full k =
    let inner = strip_end-name name seps n k in
    let head = strip_end-append (d ∷ []) (name ++ seps) (rw inner full) in
    strip_end-append dir (d ∷ (name ++ seps)) (rw head refl) ∙ rw (head, inner) refl

or_text-full : (name other : Text) → non_empty name ≡ true → or_text name other ≡ name
or_text-full [] other h = cc
or_text-full (c ∷ s) other h = refl

-- The base name of a path is what stands behind its last separator, not counting separators at the
-- very end.
pub basename-append :
    (dir : Text) (d : ℕ) (name seps : Text)
    → is_separator d ≡ true
    → IsName name
    → non_empty name ≡ true
    → AreSeparators seps
    → basename (dir ++ d ∷ (name ++ seps)) ≡ name
unfolding basename
basename-append dir d name seps h n full k =
    let (p, ps, e) = split_path-append dir d name h in
    let stripped = strip_end-cons dir d name seps n full k in
    rw (stripped, e, split_path-name name n, last-append p ps name)
      (or_text-full name (dir ++ d ∷ (name ++ seps)) full)

-- A path that is nothing but separators is its own base name.
pub basename-separators : (seps : Text) → AreSeparators seps → basename seps ≡ seps
unfolding basename split_where
basename-separators seps h = rw (strip_end-separators seps h) refl
