-- ===== src/Replay.antt =====
-- frontend/src/components/TraceReplayPanel.tsx: the replay of a run's trace, event by event.
pub mod Cursor
mod Tests
use Prim.Native.String.{String}
use mathlib.Core.List.{reverse}
use mini_agent_oscoder.Prelude.{
  ℕ, suc, ◌+◌, ◌-◌, Bool, true, false, not, ◌&&◌, ◌||◌, Option, none, some, List, [], ◌∷◌, map,
  Text, lit, text_eq, starts_with, keep, length, take, ltb, leb, ◌==◌, is_some, non_empty,
  if◌then◌else◌,
}
use mini_agent_oscoder.Json.{TraceEvent}
use mini_agent_oscoder.I18n.{Locale, Tables, localize_error_message}
use mini_agent_oscoder.Run.ViewModel.{terminal}
use mini_agent_oscoder.WorkItems.Describe.{Translator}
use mini_agent_oscoder.Scripts
use mini_agent_oscoder.Scripts.{Outcome, failed, replied, strict, done, update, await}

-- The speed only says how often the timer ticks.
pub record Replay : Type 0 where
  pub snapshot : Option (List TraceEvent)
  pub cursor : ℕ
  pub playing : Bool
  pub loading : Bool
  pub error : Option Text

-- `replayEvents`
abbrev pub replay_events : Replay → List TraceEvent
replay_events r = elim r.snapshot [ none ↦ [] | some events ↦ events ]

abbrev pub total_of : Replay → ℕ
total_of r = length (replay_events r)

-- The effect that runs for another run, or when the run has more events.
unfoldable pub reset : Replay → Replay
reset r = record r { snapshot = none; cursor = 0; playing = false; error = none }

-- One call of the timer, which runs only while `playing` and with an event to show.
unfoldable pub tick : Replay → Replay
tick r =
    if not r.playing || total_of r == 0
    then r
    else if leb (total_of r - 1) r.cursor
    then record r { playing = false }
    else record r { cursor = r.cursor + 1 }

-- The buttons.
pub data Control : Type 0 where
  restart back forward play_or_pause : Control

unfoldable pub operate : Control → Replay → Replay
operate restart r = record r { cursor = 0; playing = false }
operate back r = record r { playing = false; cursor = r.cursor - 1 }
operate forward r = record r {
  playing = false;
  cursor = if ltb (r.cursor + 1) (total_of r) then r.cursor + 1 else total_of r - 1;
}
operate play_or_pause r = record r {
  cursor = if not r.playing && leb (total_of r - 1) r.cursor then 0 else r.cursor;
  playing = not r.playing;
}

-- The bar, which lets no position be chosen that is not there.
unfoldable pub seek : ℕ → Replay → Replay
seek position r = record r { playing = false; cursor = position }

-- `visibleEvents`: those up to the cursor, the latest first, each with its place.
abbrev numbered_from : ℕ → List TraceEvent → List (TraceEvent × ℕ)
numbered_from i [] = []
numbered_from i (event ∷ events) = (event, i) ∷ numbered_from (suc i) events

unfoldable pub visible_events : Replay → List (TraceEvent × ℕ)
visible_events r = reverse (numbered_from 0 (take (r.cursor + 1) (replay_events r)))

pub data ReplayCall : Type 0 where
  replay_run : (run : Text) → ReplayCall

abbrev pub ReplayReply : ReplayCall → Type 0
ReplayReply _ = List TraceEvent

abbrev pub Script : Type 0
Script = Scripts.Script Replay ReplayCall ReplayReply

-- `canReplay`
unfoldable pub can_replay : Option Text → Text → Bool
can_replay none status = false
can_replay (some run) status = non_empty run && terminal status

abbrev pub show_replay : List TraceEvent → Replay → Replay
show_replay events r = record r {
  snapshot = some events;
  cursor = 0;
  playing = ltb 1 (length events);
}

module _ (tables : Tables) (locale : Locale) (t : Translator) where
  unfoldable pub replay_answered : Outcome (List TraceEvent × Unit) → Script
  replay_answered (failed e) =
      update
        (λ r. record r {
          error = some (localize_error_message tables locale e (t "replay.loadFailed" []));
        })
        (update (λ r. record r { loading = false }) done)
  replay_answered (replied (events, _)) =
      update (show_replay events) (update (λ r. record r { loading = false }) done)

  unfoldable pub load_replay : Option Text → Text → Script
  unfolding replay_answered can_replay
  load_replay none status = done
  load_replay (some run) status =
      if not (can_replay (some run) status)
      then done
      else update (λ r. record r { loading = true; error = none })
          (await (strict (replay_run run) ∷ []) replay_answered)

-- The counts above the trace.
abbrev pub starts_any : List String → Text → Bool
starts_any [] event = false
starts_any (p ∷ prefixes) event = starts_with event (lit p) || starts_any prefixes event

abbrev count : (Text → Bool) → List TraceEvent → ℕ
count p events = length (keep (λ (e : TraceEvent). p e.event) events)

unfoldable pub event_groups : List TraceEvent → List (String × ℕ)
event_groups events =
    ("replay.group.prompt", count (λ e. text_eq e (lit "model.requested")) events)
    ∷ ("replay.group.agents", count (starts_any ("agent." ∷ [])) events)
    ∷ ("replay.group.model", count (starts_any ("model." ∷ [])) events)
    ∷ ("replay.group.tools", count (starts_any ("tool." ∷ "action." ∷ [])) events)
    ∷ (
      "replay.group.governance",
      count (starts_any ("policy." ∷ "approval." ∷ "sandbox." ∷ [])) events,
    )
    ∷ ("replay.group.extensions", count (starts_any ("skill." ∷ "mcp." ∷ "hook." ∷ [])) events)
    ∷ ("replay.group.memory", count (starts_any ("memory." ∷ [])) events)
    ∷ []

-- `semanticRuleForEvent`, the rule alone
unfoldable pub semantic_rule : Text → Option String
semantic_rule event =
    if text_eq event (lit "model.requested")
    then some "C-LLM"
    else if text_eq event (lit "model.responded")
    then some "C-LLMRet"
    else if text_eq event (lit "action.parsed")
    then some "C-Route"
    else if text_eq event (lit "policy.evaluated") || text_eq event (lit "action.rejected")
    then some "C-Guard"
    else if text_eq event (lit "tool.executed")
    then some "C-Tool"
    else if text_eq event (lit "tool.failed")
    then some "C-ToolFail"
    else if starts_with event (lit "memory.")
    then some "C-Mem"
    else if text_eq event (lit "completion.assessed")
    then some "C-GuardOK"
    else if text_eq event (lit "run.completed")
    then some "C-Halt"
    else if starts_with event (lit "skill.")
    then some "C-Skill"
    else if starts_any ("mcp." ∷ "hook." ∷ []) event
    then some "C-Handler"
    else none
