-- ===== src/Client/Uri/Paths.antt =====
-- The path of a request of frontend/src/api/client.ts, read back from what is written of it.
use mini_agent_oscoder.Prelude.{
  ◌≡◌, refl, ◌∙◌, ap, arith, Bool, true, false, not, ◌||◌, some, List, [], ◌∷◌, ◌++◌, Text, ◌==◌,
  any, any-append, drop, join, split_where, split_where-append, split_where-join, if◌then◌else◌,
}
use mini_agent_oscoder.Client.{HttpRequest, QueryEncoding, path_of}
use mini_agent_oscoder.Client.Uri.{pairs_of, target_of, target}
use mini_agent_oscoder.Client.Uri.Safety.{map_option-some}

-- What stands before the query.
unfoldable pub before_query : Text → Text
before_query [] = []
before_query (c ∷ s) = let rest = c ∷ before_query s in if c == b'?' then [] else rest

unfoldable pub path_segments : Text → List Text
unfolding before_query
path_segments url = drop 1 (split_where (λ c _. c == b'/') (before_query url))

-- Without the units that end a segment or a path.
abbrev pub is_plain : Text → Bool
is_plain s = not (any (λ c. c == b'/' || c == b'?') s)

abbrev pub IsPlain : List Text → Type 0
IsPlain segments = any (λ s. not (is_plain s)) segments ≡ false

before_query-free : (s : Text) → any (λ c. c == b'?') s ≡ false → before_query s ≡ s
unfolding before_query
before_query-free [] h = refl
before_query-free (c ∷ s) h = ground (arith, h, before_query-free s)

before_query-append :
    (s rest : Text) → any (λ c. c == b'?') s ≡ false → before_query (s ++ (b'?' ∷ rest)) ≡ s
unfolding before_query
before_query-append [] rest h = refl
before_query-append (c ∷ s) rest h = ground (arith, h, before_query-append s rest)

plain-units :
    (s : Text)
    → is_plain s ≡ true
    → (any (λ c. c == b'?') s ≡ false) × (any (λ c. c == b'/') s ≡ false)
plain-units [] h = (refl, refl)
plain-units (c ∷ s) h = (ground (arith, h, plain-units s), ground (arith, h, plain-units s))

plain-join :
    (p : Text) (ps : List Text)
    → IsPlain (p ∷ ps)
    → any (λ c. c == b'?') (join (b'/' ∷ []) (p ∷ ps)) ≡ false
unfolding join
plain-join p [] h = (plain-units p (ground (arith, h))).0
plain-join p (q ∷ ps) h =
    any-append (λ c. c == b'?') p (b'/' ∷ join (b'/' ∷ []) (q ∷ ps))
      (plain-units p (ground (arith, h))).0 (ground (arith, plain-join q ps (ground (arith, h))))

plain-slashes : (ps : List Text) → IsPlain ps → any (λ q. any (λ c. c == b'/') q) ps ≡ false
plain-slashes [] h = refl
plain-slashes (p ∷ ps) h =
    ground (arith, (plain-units p (ground (arith, h))).1, plain-slashes ps (ground (arith, h)))

split-path :
    (p : Text) (ps : List Text)
    → IsPlain (p ∷ ps)
    → split_where (λ c _. c == b'/') (b'/' ∷ join (b'/' ∷ []) (p ∷ ps)) ≡ [] ∷ p ∷ ps
split-path p ps h =
    split_where-append b'/' [] (join (b'/' ∷ []) (p ∷ ps)) refl
    ∙ ap (λ rest. [] ∷ rest) (split_where-join b'/' p ps (plain-slashes (p ∷ ps) h))

before_query-target_of :
    (url_search_params : Text → Text) (encoding : QueryEncoding) (path : Text)
    (query : List (Text × Text)) (url : Text)
    → any (λ c. c == b'?') path ≡ false
    → target_of url_search_params encoding path query ≡ some url
    → before_query url ≡ path
unfolding target_of
before_query-target_of url_search_params encoding path [] url h k =
    let q : path ≡ url = cc in rw (← q) (before_query-free path h)
before_query-target_of url_search_params encoding path (entry ∷ query) url h k =
    let (pairs, _, q) =
      map_option-some (λ ps. path ++ (b'?' ∷ join (b'&' ∷ []) ps))
        (pairs_of url_search_params encoding (entry ∷ query)) k in
    rw q (before_query-append path (join (b'&' ∷ []) pairs) h)

-- The path that is written of a request is read back in its pieces, whatever its query, provided that
-- none of them holds a slash or a question mark.
pub path_segments-target :
    (url_search_params : Text → Text) (r : HttpRequest) (url p : Text) (ps : List Text)
    → r.path ≡ path_of (p ∷ ps)
    → IsPlain (p ∷ ps)
    → target url_search_params r ≡ some url
    → path_segments url ≡ p ∷ ps
unfolding path_segments target
path_segments-target url_search_params r url p ps e h k =
    let path : Text = path_of (p ∷ ps) in
    let before =
      before_query-target_of url_search_params r.encoding path r.query url (plain-join p ps h)
        (rw (← e) k) in
    rw (before, split-path p ps h) refl
