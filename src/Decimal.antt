-- ===== src/Decimal.antt =====
-- `String(n)` at a number that counts something: its decimal digits.
use mini_agent_oscoder.Prelude.{
  ℕ, zero, suc, ◌+◌, ◌-◌, ◌*◌, ◌/◌, ◌%◌, ◌<◌, ◌≡◌, refl, [], ◌∷◌, ◌++◌, Text, arith, ltb, ◌==◌,
  if◌then◌else◌,
}

digits : ℕ → ℕ → Text → Text
digits zero n out = out
digits (suc fuel) n out =
    let more = digits fuel (n / 10) ((b'0' + n % 10) ∷ out) in
    if ltb n 10 then (b'0' + n) ∷ out else more

-- `suc n` rounds are enough, since each round divides `n` by ten.
unfoldable pub print : ℕ → Text
unfolding digits
print n = digits (suc n) n []

-- The number that stands in front of the first dash.
read_from : ℕ → Text → ℕ
read_from n [] = n
read_from n (c ∷ s) = let more = read_from (n * 10 + (c - b'0')) s in if c == b'-' then n else more

pub read_index : Text → ℕ
unfolding read_from
read_index s = read_from 0 s

read_from-digit :
    (n d : ℕ) (s : Text) → d < 10 → read_from n ((b'0' + d) ∷ s) ≡ read_from (n * 10 + d) s
unfolding read_from
read_from-digit n d s h = ground arith

read_from-append-digits :
    (fuel n : ℕ) (out rest : Text)
    → n < fuel
    → read_from 0 (digits fuel n out ++ rest) ≡ read_from n (out ++ rest)
unfolding digits
read_from-append-digits zero n out rest h = elim h [ ]
read_from-append-digits (suc fuel) n out rest h = ground (
  arith,
  read_from-append-digits fuel (n / 10) ((b'0' + n % 10) ∷ out) rest,
  read_from-digit 0 n (out ++ rest),
  read_from-digit (n / 10) (n % 10) (out ++ rest),
)

-- The index is read back from a key that begins with its digits and a dash.
pub read_index-print : (n : ℕ) (rest : Text) → read_index (print n ++ b'-' ∷ rest) ≡ n
unfolding read_index print
read_index-print n rest =
    ground (arith, read_from-append-digits (suc n) n [] (b'-' ∷ rest), stop n rest)
  where
    stop : (n : ℕ) (rest : Text) → read_from n (b'-' ∷ rest) ≡ n
    stop n rest = unfold read_from in refl

print-42 : print 42 ≡ b'4' ∷ b'2' ∷ []
unfolding print
print-42 = refl
