-- ===== src/Scripts.antt =====
-- The asynchronous actions of the interface (frontend/src/pages, frontend/src/components and
-- frontend/src/run): scripts that update a state of type S, await the answers of requests of type C
-- and go on with them. R says what is answered to each request.
use mini_agent_oscoder.Prelude.{
  ◌≡◌, refl, ◌⊎◌, inl, inr, Option, none, some, List, [], ◌∷◌, ◌++◌, Text,
}

-- A request that was answered, or failed, with the message of the error if it has one.
pub data Outcome (A : Type 0) : Type 0 where
  failed : Option Text → Outcome A
  replied : A → Outcome A

-- `Promise.all` of requests, of which some are followed by `.catch(() => undefined)`.
pub data Ask (C : Type 0) : Type 0 where
  strict optional : C → Ask C

abbrev pub Replies : {C : Type 0} → (C → Type 0) → List (Ask C) → Type 0
Replies R [] = Unit
Replies R (strict c ∷ asks) = R c × Replies R asks
Replies R (optional c ∷ asks) = Option (R c) × Replies R asks

-- `throws` is the end of an action that throws its error on, to whoever called it.
pub data Script (S C : Type 0) (R : C → Type 0) : Type 0 where
  done throws : Script S C R
  update : (S → S) → Script S C R → Script S C R
  await : (asks : List (Ask C)) → (Outcome (Replies R asks) → Script S C R) → Script S C R

abbrev and_replied : {A B : Type 0} → Outcome A → Outcome B → Outcome (A × B)
and_replied (failed e) _ = failed e
and_replied (replied a) (failed e) = failed e
and_replied (replied a) (replied b) = replied (a, b)

abbrev caught : {A : Type 0} → Outcome A → Outcome (Option A)
caught (failed _) = replied none
caught (replied a) = replied (some a)

abbrev pub call_of : {C : Type 0} → Ask C → C
call_of (strict c) = c
call_of (optional c) = c

abbrev pub calls_of : {C : Type 0} → List (Ask C) → List C
calls_of [] = []
calls_of (a ∷ asks) = call_of a ∷ calls_of asks

module _ {C : Type 0} {R : C → Type 0} where
  unfoldable pub gather :
      ((c : C) → Outcome (R c)) → (asks : List (Ask C)) → Outcome (Replies R asks)
  gather daemon [] = replied tt
  gather daemon (strict c ∷ asks) = and_replied (daemon c) (gather daemon asks)
  gather daemon (optional c ∷ asks) = and_replied (caught (daemon c)) (gather daemon asks)

  module _ {S : Type 0} where
    -- The state after an action, where nothing else happens meanwhile.
    unfoldable pub run_script : ((c : C) → Outcome (R c)) → Script S C R → S → S
    unfolding gather
    run_script daemon done w = w
    run_script daemon throws w = w
    run_script daemon (update f s) w = run_script daemon s (f w)
    run_script daemon (await asks k) w = run_script daemon (k (gather daemon asks)) w

    -- The requests that an action sends.
    unfoldable pub sent : ((c : C) → Outcome (R c)) → Script S C R → List C
    unfolding gather
    sent daemon done = []
    sent daemon throws = []
    sent daemon (update f s) = sent daemon s
    sent daemon (await asks k) = calls_of asks ++ sent daemon (k (gather daemon asks))

    -- What holds at the end of an action, whatever the daemon answers and whatever else happens to
    -- the state while the action waits.
    abbrev pub Ends {ℓ} : (S → Type ℓ) → Script S C R → S → Type ℓ
    Ends P done w = P w
    Ends P throws w = P w
    Ends P (update f s) w = Ends P s (f w)
    Ends P (await asks k) w = (out : Outcome (Replies R asks)) → (v : S) → Ends P (k out) v

    -- What holds after every update of an action, where all that happens to the state meanwhile keeps
    -- it.
    abbrev pub Keeps {ℓ} : (S → Type ℓ) → Script S C R → Type ℓ
    Keeps P done = Unit
    Keeps P throws = Unit
    Keeps P (update f s) = ((v : S) → P v → P (f v)) × Keeps P s
    Keeps P (await asks k) = (out : Outcome (Replies R asks)) → Keeps P (k out)

-- What holds of a failure and of every answer.
pub each {ℓ} :
    {A : Type 0} (Q : Outcome A → Type ℓ)
    → ((e : Option Text) → Q (failed e))
    → ((a : A) → Q (replied a))
    → (out : Outcome A) → Q out
each Q f r (failed e) = f e
each Q f r (replied a) = r a

pub Outcome-cases :
    {A : Type 0} (o : Outcome A)
    → ((e : Option Text) × (o ≡ failed e)) ⊎ ((a : A) × (o ≡ replied a))
Outcome-cases (failed e) = inl (e, refl)
Outcome-cases (replied a) = inr (a, refl)

and_replied-replied :
    {A B : Type 0} (x : Outcome A) (y : Outcome B) (a : A) (b : B)
    → and_replied x y ≡ replied (a, b)
    → (x ≡ replied a) × (y ≡ replied b)
and_replied-replied (failed e) y a b h = cc
and_replied-replied (replied x) (failed e) a b h = cc
and_replied-replied (replied x) (replied y) a b h = (cc, cc)

-- Of requests that were all answered, the first was.
pub gather-replied :
    {C : Type 0} {R : C → Type 0} (daemon : (c : C) → Outcome (R c)) (c : C) (asks : List (Ask C))
    (a : R c) (answers : Replies R asks)
    → gather daemon (strict c ∷ asks) ≡ replied (a, answers)
    → (daemon c ≡ replied a) × (gather daemon asks ≡ replied answers)
unfolding gather
gather-replied daemon c asks a answers h =
    and_replied-replied (daemon c) (gather daemon asks) a answers h

caught-some : {A : Type 0} (x : Outcome A) (a : A) → caught x ≡ replied (some a) → x ≡ replied a
caught-some (failed e) a h = cc
caught-some (replied b) a h = cc

-- Of requests that were answered, the first was, if it left a value.
pub gather-some :
    {C : Type 0} {R : C → Type 0} (daemon : (c : C) → Outcome (R c)) (c : C) (asks : List (Ask C))
    (a : R c) (answers : Replies R asks)
    → gather daemon (optional c ∷ asks) ≡ replied (some a, answers)
    → daemon c ≡ replied a
unfolding gather
gather-some daemon c asks a answers h =
    caught-some (daemon c) a
      (and_replied-replied (caught (daemon c)) (gather daemon asks) (some a) answers h).0
