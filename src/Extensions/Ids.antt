-- ===== src/Extensions/Ids.antt =====
-- `extensionId` of frontend/src/components/ExtensionPanel.tsx.
use mini_agent_oscoder.Prelude.{
  ◌≡◌, refl, arith, inl, inr, ℕ, zero, suc, ◌+◌, ◌≤◌, Bool, true, false, not, ◌&&◌, ◌||◌,
  Bool-cases, [], ◌∷◌, ◌++◌, Text, to_lower, leb, ◌==◌, any, take, length, length-append, non_empty,
  if◌then◌else◌,
}

abbrev pub is_lower : ℕ → Bool
is_lower c = leb b'a' c && leb c b'z'

-- `[a-z0-9]`
abbrev pub is_slug_unit : ℕ → Bool
is_slug_unit c = is_lower c || (leb b'0' c && leb c b'9')

-- `.replace(/[^a-z0-9]+/g, "-")`, where `inside` says that the unit before was replaced.
unfoldable pub dashed : Bool → Text → Text
dashed inside [] = []
dashed inside (c ∷ s) = elim (is_slug_unit c) [
  | true ↦ c ∷ dashed false s
  | false ↦ if inside then dashed true s else b'-' ∷ dashed true s
]

-- `.replace(/^-+|-+$/g, "")`
unfoldable pub strip_dashes_start : Text → Text
strip_dashes_start [] = []
strip_dashes_start (c ∷ s) = let rest = strip_dashes_start s in if c == b'-' then rest else c ∷ s

unfoldable pub strip_dashes_end : Text → Text
strip_dashes_end [] = []
strip_dashes_end (c ∷ s) =
    let rest = strip_dashes_end s in if c == b'-' && not (non_empty rest) then [] else c ∷ rest

unfoldable pub slug_of : Text → Text
unfolding dashed strip_dashes_start strip_dashes_end
slug_of name = take 48 (strip_dashes_end (strip_dashes_start (dashed false (to_lower name))))

abbrev pub starts_lower : Text → Bool
starts_lower [] = false
starts_lower (c ∷ s) = is_lower c

-- `extensionId`, where `normalize` is `normalize("NFKD")` and `stamp` the end of the time in base 36.
unfoldable pub extension_id : (Text → Text) → Text → Text → Text → Text
unfolding slug_of
extension_id normalize stamp name fallback =
    let slug = slug_of (normalize name) in
    (if starts_lower slug then slug else fallback) ++ (b'-' ∷ stamp)

-- Letters, digits and dashes.
abbrev pub is_slug : Text → Bool
is_slug s = not (any (λ c. not (is_slug_unit c || c == b'-')) s)

dashed-is_slug : (inside : Bool) (s : Text) → is_slug (dashed inside s) ≡ true
unfolding dashed
dashed-is_slug inside [] = refl
dashed-is_slug inside (c ∷ s) = elim (Bool-cases (is_slug_unit c)) [
  | inl e ↦ rw (dashed, e) (ground (arith, dashed-is_slug false s))
  | inr e ↦ rw (dashed, e) (ground (arith, dashed-is_slug true s))
]

strip_dashes_start-is_slug : (s : Text) → is_slug s ≡ true → is_slug (strip_dashes_start s) ≡ true
unfolding strip_dashes_start
strip_dashes_start-is_slug [] h = refl
strip_dashes_start-is_slug (c ∷ s) h = ground (arith, h, strip_dashes_start-is_slug s)

strip_dashes_end-is_slug : (s : Text) → is_slug s ≡ true → is_slug (strip_dashes_end s) ≡ true
unfolding strip_dashes_end
strip_dashes_end-is_slug [] h = refl
strip_dashes_end-is_slug (c ∷ s) h = ground (arith, h, strip_dashes_end-is_slug s)

take-is_slug : (n : ℕ) (s : Text) → is_slug s ≡ true → is_slug (take n s) ≡ true
take-is_slug zero s h = refl
take-is_slug (suc n) [] h = refl
take-is_slug (suc n) (c ∷ s) h = ground (arith, h, take-is_slug n s)

length-take-le : (n : ℕ) (s : Text) → length (take n s) ≤ n
length-take-le zero s = omega arith
length-take-le (suc n) [] = omega arith
length-take-le (suc n) (c ∷ s) = omega (arith, length-take-le n s)

is_slug-append : (a b : Text) → is_slug a ≡ true → is_slug b ≡ true → is_slug (a ++ b) ≡ true
is_slug-append [] b h k = k
is_slug-append (c ∷ a) b h k = ground (arith, h, is_slug-append a b)

slug_of-is_slug : (name : Text) → (is_slug (slug_of name) ≡ true) × (length (slug_of name) ≤ 48)
unfolding slug_of
slug_of-is_slug name =
    let dashes = dashed false (to_lower name) in
    let trimmed = strip_dashes_start dashes in
    (
      take-is_slug 48 (strip_dashes_end trimmed) (
          strip_dashes_end-is_slug trimmed
            (strip_dashes_start-is_slug dashes (dashed-is_slug false (to_lower name)))),
      length-take-le 48 (strip_dashes_end trimmed),
    )

starts_lower-append : (a b : Text) → starts_lower a ≡ true → starts_lower (a ++ b) ≡ true
starts_lower-append [] b h = cc
starts_lower-append (c ∷ a) b h = h

-- Whatever the name and its normal form are, the id of an extension starts with a small letter, holds
-- small letters, digits and dashes alone, and has at most 49 units more than the stamp; provided that
-- the fallback starts so and has at most 48 units, and that fallback and stamp hold nothing else.
pub extension_id-is_slug :
    (normalize : Text → Text) (stamp name fallback : Text)
    → starts_lower fallback ≡ true
    → is_slug fallback ≡ true
    → is_slug stamp ≡ true
    → length fallback ≤ 48
    → (starts_lower (extension_id normalize stamp name fallback) ≡ true)
      × (is_slug (extension_id normalize stamp name fallback) ≡ true)
      × (length (extension_id normalize stamp name fallback) ≤ 49 + length stamp)
unfolding extension_id
extension_id-is_slug normalize stamp name fallback hl hf hs hn =
    let slug = slug_of (normalize name) in
    let good = slug_of-is_slug (normalize name) in
    elim (Bool-cases (starts_lower slug)) [
      | inl e ↦ rw e (
        starts_lower-append slug _ e,
        is_slug-append slug (b'-' ∷ stamp) good.0 hs,
        omega (arith, length-append slug (b'-' ∷ stamp), good.1),
      )
      | inr e ↦ rw e (
        starts_lower-append fallback _ hl,
        is_slug-append fallback (b'-' ∷ stamp) hf hs,
        omega (arith, length-append fallback (b'-' ∷ stamp)),
      )
    ]
