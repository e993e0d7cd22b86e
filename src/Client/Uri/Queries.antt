-- ===== src/Client/Uri/Queries.antt =====
-- The query of a request of frontend/src/api/client.ts, read back from what is written of it.
use mini_agent_oscoder.Prelude.{
  ◌≡◌, refl, arith, ℕ, Bool, true, false, not, ◌||◌, Option, none, some, List, [], ◌∷◌, ◌++◌, Text,
  leb, ◌==◌, ◌>>=◌, any, any-append, map, join, split_where, split_where-join, if◌then◌else◌,
}
use mini_agent_oscoder.Diff.{map_option}
use mini_agent_oscoder.Client.{HttpRequest, component}
use mini_agent_oscoder.Client.Uri.{encode_uri_component, pairs_of, target_of, target}
use mini_agent_oscoder.Client.Uri.Safety.{is_reserved, map_option-some, encode_uri_component-safe}

-- What stands after the first `d`, if there is one.
unfoldable pub after : ℕ → Text → Option Text
after d [] = none
after d (c ∷ s) = let rest = after d s in if c == d then some s else rest

unfoldable pub until : ℕ → Text → Text
until d [] = []
until d (c ∷ s) = let rest = c ∷ until d s in if c == d then [] else rest

-- A field of a query: what stands before its first equals sign, and what after.
unfoldable pub field_of : Text → Text × Text
unfolding after until
field_of s = (until b'=' s, elim (after b'=' s) [ none ↦ [] | some value ↦ value ])

-- The fields of the query of an address.
unfoldable pub query_fields : Text → List (Text × Text)
unfolding after field_of
query_fields url = elim (after b'?' url) [
  | none ↦ []
  | some query ↦ map field_of (split_where (λ c _. c == b'&') query)
]

-- A query with its values encoded.
abbrev pub encoded : List (Text × Text) → Option (List (Text × Text))
encoded [] = some []
encoded ((key, value) ∷ query) =
    encode_uri_component value >>= (λ e. map_option (λ rest. (key, e) ∷ rest) (encoded query))

-- A key that no sign of a query stands in.
abbrev pub is_plain_key : Text → Bool
is_plain_key s = not (any (λ c. c == b'=' || c == b'&') s)

abbrev pub HasPlainKeys : List (Text × Text) → Type 0
HasPlainKeys query = any (λ f. not (is_plain_key f.0)) query ≡ false

abbrev pub HasUtf16Values : List (Text × Text) → Type 0
HasUtf16Values query = any (λ f. any (λ c. not (leb c 0xffff)) f.1) query ≡ false

after-append :
    (d : ℕ) (s rest : Text) → any (λ c. c == d) s ≡ false → after d (s ++ (d ∷ rest)) ≡ some rest
unfolding after
after-append d [] rest h = let e : (d == d) ≡ true = ground arith in rw e refl
after-append d (c ∷ s) rest h = ground (arith, h, after-append d s rest)

after-free : (d : ℕ) (s : Text) → any (λ c. c == d) s ≡ false → after d s ≡ none
unfolding after
after-free d [] h = refl
after-free d (c ∷ s) h = ground (arith, h, after-free d s)

until-append : (d : ℕ) (s rest : Text) → any (λ c. c == d) s ≡ false → until d (s ++ (d ∷ rest)) ≡ s
unfolding until
until-append d [] rest h = let e : (d == d) ≡ true = ground arith in rw e refl
until-append d (c ∷ s) rest h = ground (arith, h, until-append d s rest)

plain_key-units :
    (s : Text)
    → is_plain_key s ≡ true
    → (any (λ c. c == b'=') s ≡ false) × (any (λ c. c == b'&') s ≡ false)
plain_key-units [] h = (refl, refl)
plain_key-units (c ∷ s) h =
    (ground (arith, h, plain_key-units s), ground (arith, h, plain_key-units s))

safe-ampersand : (e : Text) → any is_reserved e ≡ false → any (λ c. c == b'&') e ≡ false
safe-ampersand [] h = refl
safe-ampersand (c ∷ e) h = ground (arith, h, safe-ampersand e)

field_of-written :
    (key e : Text) → is_plain_key key ≡ true → field_of (key ++ (b'=' ∷ e)) ≡ (key, e)
unfolding field_of
field_of-written key e h =
    rw
      (
        until-append b'=' key e (plain_key-units key h).0,
        after-append b'=' key e (plain_key-units key h).0,
      )
      refl

written-ampersand :
    (key e : Text)
    → is_plain_key key ≡ true
    → any is_reserved e ≡ false
    → any (λ c. c == b'&') (key ++ (b'=' ∷ e)) ≡ false
written-ampersand key e h k =
    any-append (λ c. c == b'&') key (b'=' ∷ e) (plain_key-units key h).1
      (ground (arith, safe-ampersand e k))

written-cons :
    (key : Text) (value : Option Text) (more : Option (List Text)) {pairs : List Text}
    → (value >>= (λ e. map_option (λ rest. (key ++ (b'=' ∷ e)) ∷ rest) more)) ≡ some pairs
    → (e : Text) × (rest : List Text) × (value ≡ some e)
      × (more ≡ some rest)
      × (pairs ≡ (key ++ (b'=' ∷ e)) ∷ rest)
written-cons key none more h = cc
written-cons key (some e) more h =
    let (rest, a, b) = map_option-some (λ rest. (key ++ (b'=' ∷ e)) ∷ rest) more h in
    (e, rest, refl, a, b)

split-pairs :
    (pairs : List Text) (p : Text) (ps : List Text)
    → pairs ≡ p ∷ ps
    → any (λ q. any (λ c. c == b'&') q) pairs ≡ false
    → split_where (λ c _. c == b'&') (join (b'&' ∷ []) pairs) ≡ pairs
split-pairs [] p ps e h = cc
split-pairs (p ∷ ps) _ _ e h = split_where-join b'&' p ps h

module _ (url_search_params : Text → Text) where
  pairs_of-cons :
      (key value : Text) (query : List (Text × Text)) {pairs : List Text}
      → pairs_of url_search_params component ((key, value) ∷ query) ≡ some pairs
      → (e : Text) × (rest : List Text) × (encode_uri_component value ≡ some e)
        × (pairs_of url_search_params component query ≡ some rest)
        × (pairs ≡ (key ++ (b'=' ∷ e)) ∷ rest)
  pairs_of-cons key value query h =
      written-cons key (encode_uri_component value) (pairs_of url_search_params component query) h

  pairs_of-fields :
      (query : List (Text × Text)) (pairs : List Text)
      → HasPlainKeys query
      → HasUtf16Values query
      → pairs_of url_search_params component query ≡ some pairs
      → (encoded query ≡ some (map field_of pairs))
        × (any (λ p. any (λ c. c == b'&') p) pairs ≡ false)
  pairs_of-fields [] pairs h u k = let q : [] ≡ pairs = cc in rw (← q) (refl, refl)
  pairs_of-fields ((key, value) ∷ query) pairs h u k =
      let (e, rest, encodes, more, q) = pairs_of-cons key value query k in
      let (ih, free) = pairs_of-fields query rest (ground (arith, h)) (ground (arith, u)) more in
      let safe = encode_uri_component-safe value e (ground (arith, u)) encodes in
      let plain : is_plain_key key ≡ true = ground (arith, h) in
      rw (q, encodes, ih, field_of-written key e plain)
        (refl, ground (arith, written-ampersand key e plain safe, free))

  target_of-fields :
      (path : Text) (query : List (Text × Text)) (url : Text)
      → any (λ c. c == b'?') path ≡ false
      → HasPlainKeys query
      → HasUtf16Values query
      → target_of url_search_params component path query ≡ some url
      → encoded query ≡ some (query_fields url)
  unfolding target_of query_fields
  target_of-fields path [] url p h u k =
      let q : path ≡ url = cc in
      let none_left : after b'?' url ≡ none = rw (← q) (after-free b'?' path p) in
      rw (query_fields, none_left) refl
  target_of-fields path ((key, value) ∷ query) url p h u k =
      let (pairs, a, q) =
        map_option-some (λ ps. path ++ (b'?' ∷ join (b'&' ∷ []) ps))
          (pairs_of url_search_params component ((key, value) ∷ query)) k in
      let (e, rest, _, _, c) = pairs_of-cons key value query a in
      let (ih, free) = pairs_of-fields ((key, value) ∷ query) pairs h u a in
      let found : after b'?' url ≡ some (join (b'&' ∷ []) pairs) =
        rw q (after-append b'?' path (join (b'&' ∷ []) pairs) p) in
      rw (query_fields, found, split-pairs pairs _ rest c free) ih

  -- When the path holds no question mark, every value is UTF-16 and no key holds an equals sign or an
  -- ampersand, the query that is written of a request by the component encoding has the request's
  -- keys, in their order, each with its value encoded; whatever stands in a value, it neither ends its
  -- field nor the query.
  pub query_fields-target :
      (r : HttpRequest) (url : Text)
      → r.encoding ≡ component
      → any (λ c. c == b'?') r.path ≡ false
      → HasPlainKeys r.query
      → HasUtf16Values r.query
      → target url_search_params r ≡ some url
      → encoded r.query ≡ some (query_fields url)
  unfolding target
  query_fields-target r url e p h u k = target_of-fields r.path r.query url p h u (rw (← e) k)
