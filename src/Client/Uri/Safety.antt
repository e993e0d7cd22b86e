-- ===== src/Client/Uri/Safety.antt =====
-- The units that frontend/src/api/client.ts writes of the value of a query.
use mini_agent_oscoder.Prelude.{
  ◌≡◌, refl, arith, inl, inr, ℕ, ◌≤◌, Bool, true, false, not, ◌||◌, Bool-cases, Option, none, some,
  List, [], ◌∷◌, ◌++◌, Text, leb, ◌==◌, any, any-append, if◌then◌else◌,
}
use mini_agent_oscoder.Diff.{map_option}
use mini_agent_oscoder.Client.Uri.{
  is_unreserved, escape_byte, escape_bytes, utf8, escape_point, is_high, is_low, point_of, Start,
  kept, alone, pair, broken, start_of, encode_uri_component,
}

-- Neither left by the encoding, nor part of an escape.
abbrev pub is_reserved : ℕ → Bool
is_reserved c = not (is_unreserved c || c == b'%')

escape_byte-safe : (b : ℕ) → leb b 255 ≡ true → any is_reserved (escape_byte b) ≡ false
escape_byte-safe b h = ground arith

escape_bytes-safe :
    (bytes : List ℕ)
    → any (λ b. not (leb b 255)) bytes ≡ false
    → any is_reserved (escape_bytes bytes) ≡ false
unfolding escape_bytes
escape_bytes-safe [] h = refl
escape_bytes-safe (b ∷ bytes) h =
    any-append is_reserved (escape_byte b) (escape_bytes bytes)
      (escape_byte-safe b (ground (arith, h))) (escape_bytes-safe bytes (ground (arith, h)))

utf8-byte : (p : ℕ) → p ≤ 0x10ffff → any (λ b. not (leb b 255)) (utf8 p) ≡ false
unfolding utf8
utf8-byte p h = ground arith

escape_point-safe : (p : ℕ) → p ≤ 0x10ffff → any is_reserved (escape_point p) ≡ false
unfolding escape_point
escape_point-safe p h = escape_bytes-safe (utf8 p) (utf8-byte p h)

-- What a start says is true of its unit, which is one of 16 bits.
abbrev IsSound : ℕ → Start → Type 0
IsSound c kept = is_unreserved c ≡ true
IsSound c (alone p) = p ≤ 0x10ffff
IsSound c (pair p) = p ≤ 0x10ffff
IsSound c broken = Unit

low-IsSound :
    (c d : ℕ) → is_high c ≡ true → IsSound c (if is_low d then pair (point_of c d) else broken)
low-IsSound c d h = elim (Bool-cases (is_low d)) [ inl e ↦ rw e ground arith | inr e ↦ rw e tt ]

high-IsSound :
    (c : ℕ) (s : Text)
    → is_high c ≡ true
    → IsSound c (elim s [ [] ↦ broken | d ∷ _ ↦ if is_low d then pair (point_of c d) else broken ])
high-IsSound c [] h = tt
high-IsSound c (d ∷ s) h = low-IsSound c d h

start_of-IsSound : (c : ℕ) (s : Text) → leb c 0xffff ≡ true → IsSound c (start_of c s)
start_of-IsSound c s h = elim (Bool-cases (is_unreserved c)) [
  | inl e ↦ rw e e
  | inr e ↦ elim (Bool-cases (is_high c)) [
    | inl f ↦ rw (e, f) (high-IsSound c s f)
    | inr f ↦ elim (Bool-cases (is_low c)) [
      | inl g ↦ rw (e, f, g) tt
      | inr g ↦ rw (e, f, g) ground arith
    ]
  ]
]

pub map_option-some :
    {A B : Type 0} (f : A → B) (o : Option A) {b : B}
    → map_option f o ≡ some b
    → (a : A) × (o ≡ some a) × (b ≡ f a)
map_option-some f none h = cc
map_option-some f (some a) h = (a, refl, cc)

-- Every unit is one of 16 bits.
abbrev pub IsUtf16 : Text → Type 0
IsUtf16 s = any (λ c. not (leb c 0xffff)) s ≡ false

encode_one-safe :
    (c : ℕ) (x : Start) {e : Text}
    → IsSound c x
    → (elim x [
      | kept ↦ some (c ∷ [])
      | alone p ↦ some (escape_point p)
      | pair p ↦ none
      | broken ↦ none
    ])
      ≡ some e
    → any is_reserved e ≡ false
encode_one-safe c kept {e} g h = let q : (c ∷ []) ≡ e = cc in rw (← q) (ground (arith, g))
encode_one-safe c (alone p) {e} g h =
    let q : escape_point p ≡ e = cc in rw (← q) (escape_point-safe p g)
encode_one-safe c (pair p) g h = cc
encode_one-safe c broken g h = cc

-- An escape before what is safe.
escaped-safe :
    (p : ℕ) (o : Option Text) {e : Text}
    → p ≤ 0x10ffff
    → ((a : Text) → o ≡ some a → any is_reserved a ≡ false)
    → map_option (λ a. escape_point p ++ a) o ≡ some e
    → any is_reserved e ≡ false
escaped-safe p none g ih h = cc
escaped-safe p (some a) {e} g ih h =
    let q : (escape_point p ++ a) ≡ e = cc in
    rw (← q) (any-append is_reserved (escape_point p) a (escape_point-safe p g) (ih a refl))

kept-safe :
    (c : ℕ) (o : Option Text) {e : Text}
    → is_unreserved c ≡ true
    → ((a : Text) → o ≡ some a → any is_reserved a ≡ false)
    → map_option (λ a. c ∷ a) o ≡ some e
    → any is_reserved e ≡ false
kept-safe c none g ih h = cc
kept-safe c (some a) {e} g ih h =
    let q : (c ∷ a) ≡ e = cc in rw (← q) (ground (arith, g, ih a refl))

encode_more-safe :
    (c : ℕ) (x : Start) (next after : Option Text) {e : Text}
    → IsSound c x
    → ((a : Text) → next ≡ some a → any is_reserved a ≡ false)
    → ((a : Text) → after ≡ some a → any is_reserved a ≡ false)
    → (elim x [
      | kept ↦ map_option (λ a. c ∷ a) next
      | alone p ↦ map_option (λ a. escape_point p ++ a) next
      | pair p ↦ map_option (λ a. escape_point p ++ a) after
      | broken ↦ none
    ])
      ≡ some e
    → any is_reserved e ≡ false
encode_more-safe c kept next after g hn ha h = kept-safe c next g hn h
encode_more-safe c (alone p) next after g hn ha h = escaped-safe p next g hn h
encode_more-safe c (pair p) next after g hn ha h = escaped-safe p after g ha h
encode_more-safe c broken next after g hn ha h = cc

-- What is written of a text holds letters, digits, the nine marks that stay and escapes alone: no unit
-- of it ends the value, the query or the address.
pub encode_uri_component-safe :
    (s : Text) (e : Text) → IsUtf16 s → encode_uri_component s ≡ some e → any is_reserved e ≡ false
unfolding encode_uri_component
encode_uri_component-safe [] e g h = let q : [] ≡ e = cc in rw (← q) refl
encode_uri_component-safe (c ∷ []) e g h =
    encode_one-safe c (start_of c []) (start_of-IsSound c [] (ground (arith, g))) h
encode_uri_component-safe (c ∷ d ∷ s) e g h =
    encode_more-safe c (start_of c (d ∷ s)) (encode_uri_component (d ∷ s)) (encode_uri_component s)
      (start_of-IsSound c (d ∷ s) (ground (arith, g)))
      (λ a k. encode_uri_component-safe (d ∷ s) a (ground (arith, g)) k)
      (λ a k. encode_uri_component-safe s a (ground (arith, g)) k) h
