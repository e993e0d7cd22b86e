-- ===== src/I18n/Known.antt =====
-- The recursion of `translateKnownText` in frontend/src/i18n.ts, and what it does in English.
use mini_agent_oscoder.Prelude.{
  ℕ, zero, suc, ◌-◌, ◌≡◌, ◌≤◌, ◌<◌, refl, ap, ◌∙◌, inl, inr, true, not, ◌||◌, [], ◌∷◌, Text, lit,
  starts_with, drop, take, length, if◌then◌else◌, or_default, is_some, ◌or_else◌, Option-cases,
  arith,
}
use mini_agent_oscoder.I18n.{
  Locale, Tables, is_zh, filled, slice_between, composed, exact_match, normalized_match, known_step,
  known_by, translate_known_text,
}

length-drop : (n : ℕ) (s : Text) → length (drop n s) ≡ length s - n
length-drop zero s = omega arith
length-drop (suc n) [] = omega arith
length-drop (suc n) (c ∷ s) = omega (arith, length-drop n s)

pub length-take : (n : ℕ) (s : Text) → length (take n s) ≤ n
length-take zero s = omega arith
length-take (suc n) [] = omega arith
length-take (suc n) (c ∷ s) = omega (arith, length-take n s)

length-starts_with : (s p : Text) → starts_with s p ≡ true → length p ≤ length s
unfolding starts_with
length-starts_with s [] h = omega arith
length-starts_with [] (b ∷ p) h = ground arith
length-starts_with (a ∷ s) (b ∷ p) h = ground (arith, length-starts_with s p)

drop-shorter : (s : Text) (n : ℕ) → 1 ≤ n → 1 ≤ length s → length (drop n s) < length s
drop-shorter s n h k = omega (arith, length-drop n s)

slice_between-shorter :
    (s : Text) (n m : ℕ) → 1 ≤ n → 1 ≤ length s → length (slice_between n m s) < length s
unfolding slice_between
slice_between-shorter s n m h k = omega (arith, length-take ((length s - m) - n) (drop n s))

abbrev approval_prefix : Text
approval_prefix = lit "Tool requires approval before execution: "

abbrev sandbox_prefix : Text
sandbox_prefix = lit "Command is accepted by the "

approval-shorter : (s : Text) → starts_with s approval_prefix ≡ true → length (drop 41 s) < length s
unfolding lit
approval-shorter s h =
    drop-shorter s 41 (omega arith) (omega (arith, length-starts_with s approval_prefix h))

sandbox-shorter :
    (s : Text) → starts_with s sandbox_prefix ≡ true → length (slice_between 27 16 s) < length s
unfolding lit
sandbox-shorter s h =
    slice_between-shorter s 27 16 (omega arith)
      (omega (arith, length-starts_with s sandbox_prefix h))

module _ (tables : Tables) where
  composed-agree :
      (f g : Text → Text) (value : Text)
      → ((s : Text) → length s < length value → f s ≡ g s)
      → composed tables f value ≡ composed tables g value
  unfolding composed
  composed-agree f g value agree =
      let first = (λ (h : starts_with value approval_prefix ≡ true).
        agree (drop 41 value) (approval-shorter value h)) in
      let second = (λ (h : starts_with value sandbox_prefix ≡ true).
        agree (slice_between 27 16 value) (sandbox-shorter value h)) in
      ground (arith, first, second)

  known_step-agree :
      (f g : Text → Text) (locale : Locale) (value : Text)
      → ((s : Text) → length s < length value → f s ≡ g s)
      → known_step tables f locale value ≡ known_step tables g locale value
  unfolding known_step
  known_step-agree f g locale value agree = elim (Option-cases (exact_match tables locale value)) [
    | inr (exact, h) ↦ rw (known_step, h) refl
    | inl h ↦
        rw (known_step, h)
          (ap
            (λ v.
              if is_some (filled (normalized_match tables locale value)) || not (is_zh locale)
              then or_default (normalized_match tables locale value) value
              else v)
            (composed-agree f g value agree))
  ]

  known_by-agree :
      (n m : ℕ) (locale : Locale) (value : Text)
      → length value < n
      → length value < m
      → known_by tables n locale value ≡ known_by tables m locale value
  unfolding known_by
  known_by-agree zero m locale value h k = absurd (omega arith)
  known_by-agree (suc n) zero locale value h k = absurd (omega arith)
  known_by-agree (suc n) (suc m) locale value h k =
      known_step-agree (known_by tables n locale) (known_by tables m locale) locale value
        (λ s l. known_by-agree n m locale s (omega arith) (omega arith))

  -- The translation of a known text comes to an end, and is what its own definition says with the
  -- same translation for the texts inside.
  pub translate_known_text-known_step :
      (locale : Locale) (value : Text)
      → translate_known_text tables locale value
        ≡ known_step tables (translate_known_text tables locale) locale value
  unfolding translate_known_text known_by
  translate_known_text-known_step locale value =
      known_step-agree (known_by tables (length value) locale) (translate_known_text tables locale)
        locale value
        (λ s l. known_by-agree (length value) (suc (length s)) locale s l (omega arith))

  known_step-en :
      (f : Text → Text) (value : Text)
      → known_step tables f Locale.en value
        ≡ or_default
            (exact_match tables Locale.en value or_else normalized_match tables Locale.en value)
            value
  unfolding known_step
  known_step-en f value = elim (Option-cases (exact_match tables Locale.en value)) [
    | inr (exact, h) ↦ rw (known_step, h) refl
    | inl h ↦ rw (known_step, h) (ground arith)
  ]

  -- In English, a known text is its entry, or else that of the first key that differs from it in
  -- punctuation, blanks and case only, and any other text stays as it is.
  pub translate_known_text-en :
      (value : Text)
      → translate_known_text tables Locale.en value
        ≡ or_default
            (exact_match tables Locale.en value or_else normalized_match tables Locale.en value)
            value
  translate_known_text-en value =
      translate_known_text-known_step Locale.en value
      ∙ known_step-en (translate_known_text tables Locale.en) value
