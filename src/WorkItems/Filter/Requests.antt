-- ===== src/WorkItems/Filter/Requests.antt =====
-- When a model request counts as resolved.
use mini_agent_oscoder.Prelude.{
  ℕ, ◌≡◌, refl, ◌∙◌, ap, ◌↔◌, ◌⊎◌, inl, inr, true, false, Option, List, [], ◌∷◌, ◌++◌, arith, All,
  Bool-cases, drop, get_elem?-of_drop, drop-suc,
}
use mini_agent_oscoder.Json.{Value, TraceEvent}
use mini_agent_oscoder.WorkItems.{payload_field}
use mini_agent_oscoder.WorkItems.Filter.{
  is_request, other_step, is_resolving, resolved_in, is_resolved_model_request,
}

module _ (step : Option Value) where
  -- An event that says nothing about a request with this step.
  pub record IsNeutral (e : TraceEvent) : Type 0 where
    pub no_request : is_request e ≡ false
    pub same_step : other_step step (payload_field e "step") ≡ false
    pub no_result : is_resolving e ≡ false

  -- The next request, or a result that is not of another step.
  abbrev pub Settles : TraceEvent → Type 0
  Settles e =
      (is_request e ≡ true)
      ⊎ ((other_step step (payload_field e "step") ≡ false) × (is_resolving e ≡ true))

  -- Behind events that say nothing stands one that settles the request.
  pub record IsSettled (events : List TraceEvent) : Type 0 where
    pub before : List TraceEvent
    pub settling : TraceEvent
    pub after : List TraceEvent
    pub split : events ≡ before ++ settling ∷ after
    pub neutral : All IsNeutral before
    pub settles : Settles settling

  IsSettled-now : (e : TraceEvent) (events : List TraceEvent) → Settles e → IsSettled (e ∷ events)
  IsSettled-now e events s = record {
    before = [];
    settling = e;
    after = events;
    split = refl;
    neutral = tt;
    settles = s;
  }

  IsSettled-later :
      (e : TraceEvent) (events : List TraceEvent)
      → IsNeutral e
      → IsSettled events
      → IsSettled (e ∷ events)
  IsSettled-later e events n s = record {
    before = e ∷ s.before;
    settling = s.settling;
    after = s.after;
    split = ap (λ l. e ∷ l) s.split;
    neutral = (n, s.neutral);
    settles = s.settles;
  }

  resolved_in_sound : (events : List TraceEvent) → resolved_in step events ≡ true → IsSettled events
  unfolding resolved_in
  resolved_in_sound [] h = cc
  resolved_in_sound (e ∷ events) h = elim (Bool-cases (is_request e)) [
    | inl r ↦ IsSettled-now e events (inl r)
    | inr r ↦ elim (Bool-cases (other_step step (payload_field e "step"))) [
      | inl o ↦ cc (rw (r, o) at h)
      | inr o ↦ elim (Bool-cases (is_resolving e)) [
        | inl v ↦ IsSettled-now e events (inr (o, v))
        | inr v ↦
            IsSettled-later e events (record { no_request = r; same_step = o; no_result = v })
              (resolved_in_sound events (rw (r, o, v) at h))
      ]
    ]
  ]

  resolved_in_neutral :
      (e : TraceEvent) (events : List TraceEvent)
      → IsNeutral e
      → resolved_in step (e ∷ events) ≡ resolved_in step events
  unfolding resolved_in
  resolved_in_neutral e events n = rw (n.no_request, n.same_step, n.no_result)

  resolved_in_complete :
      (before : List TraceEvent) (e : TraceEvent) (after : List TraceEvent)
      → All IsNeutral before
      → Settles e
      → resolved_in step (before ++ e ∷ after) ≡ true
  resolved_in_complete [] e after _ (inl r) = unfold resolved_in in rw r
  resolved_in_complete [] e after _ (inr (o, v)) = unfold resolved_in in ground arith
  resolved_in_complete (b ∷ before) e after (n, ns) s =
      resolved_in_neutral b (before ++ e ∷ after) n ∙ resolved_in_complete before e after ns s

  resolved_in_iff : (events : List TraceEvent) → (resolved_in step events ≡ true) ↔ IsSettled events
  resolved_in_iff events = (
    resolved_in_sound events,
    λ s. rw s.split (resolved_in_complete s.before s.settling s.after s.neutral s.settles),
  )

-- A request in a trace is hidden as resolved exactly when, behind events that say nothing about its
-- step, there follows another request or a result that is not of another step.
pub is_resolved_model_request_iff :
    (events : List TraceEvent) (index : ℕ) {e : TraceEvent} {rest : List TraceEvent}
    → drop index events ≡ e ∷ rest
    → is_request e ≡ true
    → (is_resolved_model_request events index ≡ true) ↔ IsSettled (payload_field e "step") rest
unfolding is_resolved_model_request
is_resolved_model_request_iff events index {e} {rest} at r =
    rw (get_elem?-of_drop index events at, is_resolved_model_request, r, drop-suc index events at)
      (resolved_in_iff (payload_field e "step") rest)

-- Any other event is never hidden as a resolved request.
pub is_resolved_model_request_other :
    (events : List TraceEvent) (index : ℕ) {e : TraceEvent} {rest : List TraceEvent}
    → drop index events ≡ e ∷ rest
    → is_request e ≡ false
    → is_resolved_model_request events index ≡ false
unfolding is_resolved_model_request
is_resolved_model_request_other events index at r =
    rw (get_elem?-of_drop index events at, is_resolved_model_request, r)
