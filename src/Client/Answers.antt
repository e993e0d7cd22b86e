-- ===== src/Client/Answers.antt =====
-- `request` and `configureDesktopDaemon` of frontend/src/api/client.ts.
use mini_agent_oscoder.Prelude.{
  ◌≡◌, refl, inl, inr, ◌⊎◌, ℕ, Bool, true, false, not, ◌&&◌, ◌||◌, Bool-cases, Option, Option-cases,
  none, some, [], ◌∷◌, ◌++◌, Text, text_eq, lit, ltb, one_of, non_empty, if◌then◌else◌,
}
use mini_agent_oscoder.Json.{null, bool, number, str, arr, obj, Value, Fields, property}
use mini_agent_oscoder.Decimal.{print}
use mini_agent_oscoder.Scripts.{Outcome, failed, replied}

-- What `fetch` comes back with; the body is read as JSON, which it may not be.
pub record Response : Type 0 where
  pub status : ℕ
  pub body : Option Value

-- `response.ok`
abbrev pub is_ok : Response → Bool
is_ok response = ltb 199 response.status && ltb response.status 300

-- `Boolean(value)`; a number is falsy if it is zero or not a number.
abbrev pub is_truthy : Value → Bool
is_truthy null = false
is_truthy (bool b) = b
is_truthy (number is_finite printed) = not (one_of ("0" ∷ "-0" ∷ "NaN" ∷ []) printed)
is_truthy (str s) = non_empty s
is_truthy (arr vs) = true
is_truthy (obj fields) = true

-- What `new Error(value)` makes of a detail that is no text is `printed`.
module _ (printed : Value → Text) where
  abbrev pub message_of : Value → Text
  message_of (str s) = s
  message_of v = printed v

  -- `body.detail || ""`, none for the empty text: what cannot be read has no detail.
  unfoldable pub detail_of : Option Value → Option Value
  detail_of (some (obj fields)) = elim (property (lit "detail") fields) [
    | none ↦ none
    | some v ↦ if is_truthy v then some v else none
  ]
  detail_of _ = none

  -- The message of a response that is not ok: `new Error(detail || ...)`.
  unfoldable pub failure_message : Response → Text
  unfolding detail_of
  failure_message response = elim (detail_of response.body) [
    | none ↦ lit "Request failed: " ++ print response.status
    | some v ↦ message_of v
  ]

  -- `request`, by what `fetch` gives: nothing but a message when it fails. A body that is not JSON
  -- throws; `syntax_error` is what it throws.
  unfoldable pub request : Text → Outcome Response → Outcome Value
  unfolding failure_message
  request syntax_error (failed message) = failed message
  request syntax_error (replied response) =
      if not (is_ok response)
      then failed (some (failure_message response))
      else elim response.body [ none ↦ failed (some syntax_error) | some v ↦ replied v ]

  -- A body is an object whose `detail` is a value that is not falsy.
  abbrev pub HasDetail : Option Value → Value → Type 0
  HasDetail body v =
      (fields : Fields) × (body ≡ some (obj fields))
      × (property (lit "detail") fields ≡ some v)
      × (is_truthy v ≡ true)

  -- What the message of an error says of a response.
  abbrev pub Explains : Response → Text → Type 0
  Explains response m =
      ((s : Text) × HasDetail response.body (str s) × (m ≡ s) × (non_empty m ≡ true))
      ⊎ ((v : Value) × HasDetail response.body v × ((s : Text) → ¬ (v ≡ str s)) × (m ≡ printed v))
      ⊎ (((v : Value) → ¬ HasDetail response.body v)
          × (m ≡ lit "Request failed: " ++ print response.status))

  detail_of-HasDetail :
      (body : Option Value) (v : Value) → HasDetail body v → detail_of body ≡ some v
  unfolding detail_of
  detail_of-HasDetail body v (fields, e, p, h) = rw (e, detail_of, p, h) refl

  HasDetail-detail_of :
      (body : Option Value) {v : Value} → detail_of body ≡ some v → HasDetail body v
  unfolding detail_of
  HasDetail-detail_of none h = cc
  HasDetail-detail_of (some (obj fields)) {v} h =
      elim (Option-cases (property (lit "detail") fields)) [
        | inl n ↦ cc (rw (detail_of, n) at h)
        | inr (w, e) ↦ elim (Bool-cases (is_truthy w)) [
          | inl t ↦
              let q : w ≡ v = cc (rw (detail_of, e, t) at h) in
              (fields, refl, rw (← q) e, rw (← q) t)
          | inr f ↦ cc (rw (detail_of, e, f) at h)
        ]
      ]
  HasDetail-detail_of (some null) h = cc
  HasDetail-detail_of (some (bool b)) h = cc
  HasDetail-detail_of (some (number is_finite shown)) h = cc
  HasDetail-detail_of (some (str s)) h = cc
  HasDetail-detail_of (some (arr vs)) h = cc

  explain :
      (response : Response) (v : Value)
      → HasDetail response.body v
      → failure_message response ≡ message_of v
      → Explains response (failure_message response)
  explain response (str s) (fields, e, p, h) q = inl (s, (fields, e, p, h), q, rw q h)
  explain response null d q = inr (inl (null, d, (λ s. cc), q))
  explain response (bool b) d q = inr (inl (bool b, d, (λ s. cc), q))
  explain response (number is_finite shown) d q =
      inr (inl (number is_finite shown, d, (λ s. cc), q))
  explain response (arr vs) d q = inr (inl (arr vs, d, (λ s. cc), q))
  explain response (obj fields) d q = inr (inl (obj fields, d, (λ s. cc), q))

  failure_message-Explains : (response : Response) → Explains response (failure_message response)
  unfolding failure_message
  failure_message-Explains response = elim (Option-cases (detail_of response.body)) [
    | inl n ↦
        inr
          (inr ((λ v d. cc (detail_of-HasDetail response.body v d)), rw (failure_message, n) refl))
    | inr (v, e) ↦
        explain response v (HasDetail-detail_of response.body e) (rw (failure_message, e) refl)
  ]

  -- What a request gives of an answer.
  abbrev pub IsAnswer : Text → Response → Outcome Value → Type 0
  IsAnswer syntax_error response (replied v) = (is_ok response ≡ true) × (response.body ≡ some v)
  IsAnswer syntax_error response (failed message) =
      ((is_ok response ≡ false) × (m : Text) × (message ≡ some m) × Explains response m)
      ⊎ ((is_ok response ≡ true) × (response.body ≡ none) × (message ≡ some syntax_error))

  body-IsAnswer :
      (syntax_error : Text) (response : Response) (body : Option Value)
      → is_ok response ≡ true
      → response.body ≡ body
      → IsAnswer syntax_error response
          (elim body [ none ↦ failed (some syntax_error) | some v ↦ replied v ])
  body-IsAnswer syntax_error response none h e = inr (h, e, refl)
  body-IsAnswer syntax_error response (some v) h e = (h, e)

  -- A request succeeds only with the body of a response that is ok, and fails for a response that is ok
  -- only under the error of a body that is not JSON. For any other response it fails under the text of
  -- the body's detail, which is not empty; or under what is printed of a detail that is no text and not
  -- falsy, which may be empty; or, where the body has no detail that is not falsy, under the status.
  pub request-IsAnswer :
      (syntax_error : Text) (response : Response)
      → IsAnswer syntax_error response (request syntax_error (replied response))
  unfolding request
  request-IsAnswer syntax_error response = elim (Bool-cases (is_ok response)) [
    | inl e ↦ rw (request, e) (body-IsAnswer syntax_error response response.body e refl)
    | inr e ↦
        rw (request, e) (inl (e, failure_message response, refl, failure_message-Explains response))
  ]

-- What the parser of addresses says of one.
pub record ParsedUrl : Type 0 where
  pub protocol : Text
  pub hostname : Text
  pub origin : Text

abbrev pub is_loopback : ParsedUrl → Bool
is_loopback url =
    text_eq url.protocol (lit "http:") && one_of ("127.0.0.1" ∷ "localhost" ∷ []) url.hostname

-- `configureDesktopDaemon`: the next base, or what it throws. `new URL` is `parse`, which throws where
-- it gives none.
module _ (parse : Text → Option ParsedUrl) where
  unfoldable pub configure_daemon : Text → Outcome Text
  configure_daemon url = elim (parse url) [
    | none ↦ failed none
    | some parsed ↦
        if not (text_eq parsed.protocol (lit "http:"))
          || not (one_of ("127.0.0.1" ∷ "localhost" ∷ []) parsed.hostname)
        then failed (some (lit "Desktop Daemon must use a loopback HTTP URL"))
        else replied parsed.origin
  ]
