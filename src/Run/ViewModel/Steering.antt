-- ===== src/Run/ViewModel/Steering.antt =====
-- The steering messages of a run.
use mini_agent_oscoder.Prelude.{
  ◌≡◌, refl, true, List, [], ◌∷◌, ◌++◌, append_assoc, append-nil, text_eq_refl, Text, lit, text_eq,
  among, map,
}
use mini_agent_oscoder.Json.{TraceEvent}
use mini_agent_oscoder.Run.ViewModel.{
  SteeringMessage, message_text, messages_of, flag_messages, steering_messages,
}
use mini_agent_oscoder.WorkItems.{payload_field}

messages_of-append :
    (name : Text) (xs ys : List TraceEvent)
    → messages_of name (xs ++ ys) ≡ messages_of name xs ++ messages_of name ys
unfolding messages_of
messages_of-append name [] ys = refl
messages_of-append name (e ∷ xs) ys = simp (messages_of-append name xs ys, append_assoc)

flag_messages-append :
    (applied xs ys : List Text)
    → flag_messages applied (xs ++ ys) ≡ flag_messages applied xs ++ flag_messages applied ys
unfolding flag_messages
flag_messages-append applied [] ys = refl
flag_messages-append applied (m ∷ xs) ys = simp (flag_messages-append applied xs ys)

flag_messages-texts :
    (applied messages : List Text)
    → map (λ (s : SteeringMessage). s.message) (flag_messages applied messages) ≡ messages
unfolding flag_messages
flag_messages-texts applied [] = refl
flag_messages-texts applied (m ∷ messages) = rw (flag_messages-texts applied messages)

-- Every queued message is listed once, in the order in which they were queued.
pub steering_messages-texts :
    (events : List TraceEvent)
    → map (λ (s : SteeringMessage). s.message) (steering_messages events)
      ≡ messages_of (lit "user.guidance.queued") events
unfolding steering_messages
steering_messages-texts events =
    flag_messages-texts (messages_of (lit "user.guidance.applied") events)
      (messages_of (lit "user.guidance.queued") events)

only_queued :
    (e : TraceEvent)
    → e.event ≡ lit "user.guidance.queued"
    → messages_of (lit "user.guidance.applied") (e ∷ []) ≡ []
unfolding messages_of text_eq lit
only_queued e queued = simp queued

as_queued :
    (e : TraceEvent) (m : Text)
    → e.event ≡ lit "user.guidance.queued"
    → message_text (payload_field e "message") ≡ m ∷ []
    → messages_of (lit "user.guidance.queued") (e ∷ []) ≡ m ∷ []
unfolding messages_of
as_queued e m queued text = rw (queued_name e queued, text)
  where
    queued_name :
        (e : TraceEvent)
        → e.event ≡ lit "user.guidance.queued"
        → text_eq e.event (lit "user.guidance.queued") ≡ true
    queued_name e queued = rw queued (text_eq_refl _)

-- A message queued with the text of one that was applied before is listed as applied at once.
pub steering_messages-repeated :
    (events : List TraceEvent) (e : TraceEvent) (m : Text)
    → e.event ≡ lit "user.guidance.queued"
    → message_text (payload_field e "message") ≡ m ∷ []
    → among (messages_of (lit "user.guidance.applied") events) m ≡ true
    → steering_messages (events ++ e ∷ [])
      ≡ steering_messages events ++ record { message = m; applied = true } ∷ []
unfolding steering_messages
steering_messages-repeated events e m queued text applied =
    rw
      (
        messages_of-append (lit "user.guidance.applied") events (e ∷ []),
        messages_of-append (lit "user.guidance.queued") events (e ∷ []),
        only_queued e queued,
        as_queued e m queued text,
        append-nil (messages_of (lit "user.guidance.applied") events),
        flag_messages-append (messages_of (lit "user.guidance.applied") events)
            (messages_of (lit "user.guidance.queued") events) (m ∷ []),
      )
      (unfold flag_messages in rw applied)
