-- ===== src/Run/ViewModel/Statuses.antt =====
-- The sets of statuses against the texts for a status, and against the state of the activity feed.
use mini_agent_oscoder.Prelude.{
  ◌≡◌, refl, Bool, true, false, not, ◌&&◌, ◌||◌, [], ◌∷◌, Text, lit, text_eq, text_eq-eq-false,
  one_of, arith, is_some,
}
use mini_agent_oscoder.WorkItems.Present.{ActivityKey, activity_state}
use mini_agent_oscoder.Run.ViewModel.{run_copy, run_is_active, terminal}

ended_not_active :
    (run_is_active (lit "completed") ≡ false)
    × (run_is_active (lit "failed") ≡ false)
    × (run_is_active (lit "cancelled") ≡ false)
unfolding run_is_active text_eq lit
ended_not_active = (refl, refl, refl)

apart : (status : Text) → (run_is_active status && terminal status) ≡ false
unfolding terminal
apart status = ground (
  arith,
  text_eq-eq-false run_is_active status (lit "completed"),
  text_eq-eq-false run_is_active status (lit "failed"),
  text_eq-eq-false run_is_active status (lit "cancelled"),
  ended_not_active,
)

copied : (status : Text) → is_some (run_copy status) ≡ (run_is_active status || terminal status)
unfolding run_copy run_is_active terminal
copied status = ground arith

-- No status is both active and terminal, and the statuses with a text of their own are exactly those
-- that are one of the two.
pub statuses-partition :
    (status : Text)
    → ((run_is_active status && terminal status) ≡ false)
      × (is_some (run_copy status) ≡ (run_is_active status || terminal status))
statuses-partition status = (apart status, copied status)

abbrev pub is_live : ActivityKey → Bool
is_live ActivityKey.live = true
is_live _ = false

abbrev pub is_ended : ActivityKey → Bool
is_ended ActivityKey.live = false
is_ended ActivityKey.paused = false
is_ended _ = true

abbrev live_statuses : Text → Bool
live_statuses =
    one_of ("running" ∷ "applying_patch" ∷ "testing" ∷ "repairing" ∷ "cancellation_requested" ∷ [])

not_live :
    (live_statuses (lit "waiting_approval") ≡ false)
    × (live_statuses (lit "completed") ≡ false)
    × (live_statuses (lit "failed") ≡ false)
    × (live_statuses (lit "cancelled") ≡ false)
unfolding text_eq lit
not_live = (refl, refl, refl, refl)

-- The activity feed calls a run live exactly when the page calls it active and it is not waiting for
-- approval, and ended exactly when the page calls it terminal.
pub activity_state-statuses :
    (status : Text)
    → (is_live (activity_state status).key
        ≡ (run_is_active status && not (text_eq status (lit "waiting_approval"))))
      × (is_ended (activity_state status).key ≡ terminal status)
unfolding activity_state run_is_active terminal
activity_state-statuses status = ground (
  arith,
  text_eq-eq-false live_statuses status (lit "waiting_approval"),
  text_eq-eq-false live_statuses status (lit "completed"),
  text_eq-eq-false live_statuses status (lit "failed"),
  text_eq-eq-false live_statuses status (lit "cancelled"),
  not_live,
)
