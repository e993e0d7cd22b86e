-- ===== src/Client/Uri.antt =====
-- How frontend/src/api/client.ts writes a request's path and query.
pub mod Safety
pub mod Paths
pub mod Queries
use Prim.Native.String.{String}
use mini_agent_oscoder.Prelude.{
  ◌≡◌, refl, ◌∙◌, ap, arith, inl, inr, ℕ, ◌+◌, ◌-◌, ◌*◌, ◌/◌, ◌%◌, ◌≤◌, Bool, true, false, not,
  ◌&&◌, ◌||◌, Bool-cases, Option-cases, Option, none, some, List, [], ◌∷◌, ◌++◌, map, Text, lit,
  leb, ltb, ◌==◌, any, drop, join, split_where, split_where-join, if◌then◌else◌, ◌>>=◌,
  append_assoc, first, or_default,
}
use mini_agent_oscoder.Diff.{map_option}
use mini_agent_oscoder.Client.{HttpRequest, QueryEncoding, component, form, endpoint}

abbrev is_between : ℕ → ℕ → ℕ → Bool
is_between a b c = leb a c && leb c b

abbrev is_alnum : ℕ → Bool
is_alnum c = is_between b'A' b'Z' c || is_between b'a' b'z' c || is_between b'0' b'9' c

-- What `encodeURIComponent` leaves as it is.
abbrev pub is_unreserved : ℕ → Bool
is_unreserved c =
    is_alnum c
    || c == b'-'
    || c == b'_'
    || c == b'.'
    || c == b'!'
    || c == b'~'
    || c == b'*'
    || c == b'\''
    || c == b'('
    || c == b')'

abbrev hex_digit : ℕ → ℕ
hex_digit d = if ltb d 10 then b'0' + d else b'A' + (d - 10)

-- `%` and the two digits of a byte
abbrev escape_byte : ℕ → Text
escape_byte b = b'%' ∷ hex_digit (b / 16) ∷ hex_digit (b % 16) ∷ []

escape_bytes : List ℕ → Text
escape_bytes [] = []
escape_bytes (b ∷ bytes) = escape_byte b ++ escape_bytes bytes

-- The bytes of a code point in UTF-8.
utf8 : ℕ → List ℕ
utf8 p =
    if ltb p 0x80
    then p ∷ []
    else if ltb p 0x800
    then (0xc0 + p / 64) ∷ (0x80 + p % 64) ∷ []
    else if ltb p 0x10000
    then (0xe0 + p / 4096) ∷ (0x80 + p / 64 % 64) ∷ (0x80 + p % 64) ∷ []
    else (0xf0 + p / 262144) ∷ (0x80 + p / 4096 % 64) ∷ (0x80 + p / 64 % 64) ∷ (0x80 + p % 64) ∷ []

escape_point : ℕ → Text
unfolding escape_bytes utf8
escape_point p = escape_bytes (utf8 p)

abbrev is_high : ℕ → Bool
is_high = is_between 0xd800 0xdbff

abbrev is_low : ℕ → Bool
is_low = is_between 0xdc00 0xdfff

abbrev point_of : ℕ → ℕ → ℕ
point_of high low = 0x10000 + (high - 0xd800) * 1024 + (low - 0xdc00)

-- What a unit says of the code point that starts at it.
pub data Start : Type 0 where
  kept : Start
  alone pair : (point : ℕ) → Start
  broken : Start

abbrev pub start_of : ℕ → Text → Start
start_of c s =
    if is_unreserved c
    then kept
    else if is_high c
    then elim s [ [] ↦ broken | d ∷ _ ↦ if is_low d then pair (point_of c d) else broken ]
    else if is_low c
    then broken
    else alone c

-- `encodeURIComponent`, which throws at half of a pair.
unfoldable pub encode_uri_component : Text → Option Text
unfolding escape_point
encode_uri_component [] = some []
encode_uri_component (c ∷ []) = elim (start_of c []) [
  | kept ↦ some (c ∷ [])
  | alone p ↦ some (escape_point p)
  | pair p ↦ none
  | broken ↦ none
]
encode_uri_component (c ∷ d ∷ s) = elim (start_of c (d ∷ s)) [
  | kept ↦ map_option (λ e. c ∷ e) (encode_uri_component (d ∷ s))
  | alone p ↦ map_option (λ e. escape_point p ++ e) (encode_uri_component (d ∷ s))
  | pair p ↦ map_option (λ e. escape_point p ++ e) (encode_uri_component s)
  | broken ↦ none
]

-- The value of a query, each way.
abbrev encode_value : (Text → Text) → QueryEncoding → Text → Option Text
encode_value url_search_params component value = encode_uri_component value
encode_value url_search_params form value = some (url_search_params value)

-- What the browser does to the value of a `URLSearchParams` is `url_search_params`.
module _ (url_search_params : Text → Text) where
  abbrev pairs_of : QueryEncoding → List (Text × Text) → Option (List Text)
  pairs_of encoding [] = some []
  pairs_of encoding ((key, value) ∷ query) =
      encode_value url_search_params encoding value
      >>= (λ e. map_option (λ rest. (key ++ (b'=' ∷ e)) ∷ rest) (pairs_of encoding query))

  unfoldable pub target_of : QueryEncoding → Text → List (Text × Text) → Option Text
  unfolding encode_uri_component
  target_of encoding path [] = some path
  target_of encoding path (entry ∷ query) =
      map_option (λ pairs. path ++ (b'?' ∷ join (b'&' ∷ []) pairs))
        (pairs_of encoding (entry ∷ query))

  -- What is appended to the base of the daemon, unless a value throws.
  unfoldable pub target : HttpRequest → Option Text
  unfolding target_of
  target r = target_of r.encoding r.path r.query
