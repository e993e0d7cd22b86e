-- ===== src/History/Durations.antt =====
-- `formatDuration` of frontend/src/components/RunCenter.tsx, for a whole number of milliseconds.
use Prim.Native.Nat.{◌^◌}
use mini_agent_oscoder.Prelude.{
  ◌≡◌, refl, arith, inl, inr, ◌↔◌, ◌⊎◌, ℕ, ◌+◌, ◌*◌, ◌/◌, ◌%◌, ◌≤◌, ◌<◌, Bool-cases, Option, none,
  some, ◌++◌, Text, lit, ltb, if◌then◌else◌,
}
use mini_agent_oscoder.Decimal.{print}

-- The power of two that scales `value / 1000`, from 1 to 60, to a mantissa of 53 bits.
scale_of : ℕ → ℕ
scale_of value =
    if ltb value 2000
    then 2 ^ 52
    else if ltb value 4000
    then 2 ^ 51
    else if ltb value 8000
    then 2 ^ 50
    else if ltb value 16000
    then 2 ^ 49
    else if ltb value 32000
    then 2 ^ 48
    else 2 ^ 47

-- The mantissa of the double that is nearest to `value / 1000`.
mantissa : ℕ → ℕ → ℕ
mantissa value scale = (2 * value * scale + 1000) / 2000

-- `(value / 1000).toFixed(1)`: the tenths that are nearest to the double, the larger ones of two.
unfoldable pub tenths : ℕ → ℕ
unfolding scale_of mantissa
tenths value = let scale = scale_of value in (20 * mantissa value scale + scale) / (2 * scale)

unfoldable pub format_duration : Option ℕ → Text → Text
unfolding tenths
format_duration none fallback = fallback
format_duration (some value) fallback =
    if ltb value 1000
    then print value ++ lit " ms"
    else if ltb value 60000
    then print (tenths value / 10) ++ (lit "." ++ (print (tenths value % 10) ++ lit " s"))
    else print (value / 60000) ++ (lit "m " ++ (print ((value % 60000 + 500) / 1000) ++ lit "s"))

-- The distance of two numbers is at most `d`.
abbrev pub IsWithin : ℕ → ℕ → ℕ → Type 0
IsWithin d a b = (a ≤ b + d) × (b ≤ a + d)

tenths-IsWithin : (value : ℕ) → IsWithin 50 (100 * tenths value) value
unfolding tenths scale_of mantissa
tenths-IsWithin value = (ground arith, ground arith)

-- What is shown of a duration: below a second its milliseconds; below a minute its tenths of a second,
-- and from there its minutes and seconds, each rounded to the nearest. The seconds go up to 60: they
-- are 60 when less than half a second is missing to the next minute.
pub format_duration-IsNear :
    (value : ℕ) (fallback : Text)
    → (value < 1000) × (format_duration (some value) fallback ≡ print value ++ lit " ms")
      ⊎ ((n : ℕ) × (IsWithin 50 (100 * n) value)
          × (n ≤ 600)
          × (format_duration (some value) fallback
              ≡ print (n / 10) ++ (lit "." ++ (print (n % 10) ++ lit " s"))))
      ⊎ (m : ℕ) × (s : ℕ) × (IsWithin 500 (60000 * m + 1000 * s) value)
        × (s ≤ 60)
        × ((s ≡ 60) ↔ (59500 ≤ value % 60000))
        × (format_duration (some value) fallback ≡ print m ++ (lit "m " ++ (print s ++ lit "s")))
unfolding format_duration
format_duration-IsNear value fallback = elim (Bool-cases (ltb value 1000)) [
  | inl e ↦ inl (ground arith, rw (format_duration, e) refl)
  | inr e ↦ elim (Bool-cases (ltb value 60000)) [
    | inl s ↦ inr (
        inl (
          tenths value,
          tenths-IsWithin value,
          ground (arith, tenths-IsWithin value),
          rw (format_duration, e, s) refl,
        ))
    | inr s ↦ inr (
        inr (
          value / 60000,
          (value % 60000 + 500) / 1000,
          (omega arith, omega arith),
          omega arith,
          ((λ h. omega arith), (λ h. omega arith)),
          rw (format_duration, e, s) refl,
        ))
  ]
]
