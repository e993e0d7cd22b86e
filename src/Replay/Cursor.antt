-- ===== src/Replay/Cursor.antt =====
-- The position of the replay in frontend/src/components/TraceReplayPanel.tsx, and its end.
use mini_agent_oscoder.Prelude.{
  ◌≡◌, refl, ap, arith, inl, inr, ℕ, zero, suc, ◌+◌, ◌-◌, ◌≤◌, ◌<◌, Bool, true, false, not, ◌||◌,
  Bool-cases, Option, none, List, Text, leb, ◌==◌,
}
use mini_agent_oscoder.Json.{TraceEvent}
use mini_agent_oscoder.Replay.{
  Replay, Control, restart, back, forward, play_or_pause, total_of, reset, tick, operate, seek,
  show_replay,
}

-- The cursor stands at an event, or at 0 where there is none.
abbrev pub IsInside : Replay → Type 0
IsInside r = r.cursor ≤ total_of r - 1

-- What happens to a replay.
pub data Step : Replay → Replay → Type 0 where
  resets : {r : Replay} → Step r (reset r)
  ticks : {r : Replay} → Step r (tick r)
  loads : {r : Replay} → (events : List TraceEvent) → Step r (show_replay events r)
  waits :
      {r : Replay}
      → (loading : Bool) → (error : Option Text)
      → Step r (record r { loading = loading; error = error })
  operates : {r : Replay} → (control : Control) → Step r (operate control r)
  seeks : {r : Replay} → (position : ℕ) → position < total_of r → Step r (seek position r)

pub data Reachable : Replay → Type 0 where
  start : {r : Replay} → r.snapshot ≡ none → r.cursor ≡ 0 → Reachable r
  step : {r s : Replay} → Reachable r → Step r s → Reachable s

tick-IsInside : (r : Replay) → IsInside r → IsInside (tick r)
unfolding tick
tick-IsInside r h = elim (Bool-cases (not r.playing || total_of r == 0)) [
  | inl e ↦ rw (tick, e) h
  | inr e ↦ elim (Bool-cases (leb (total_of r - 1) r.cursor)) [
    | inl f ↦ rw (tick, e, f) h
    | inr f ↦ rw (tick, e, f) (ground (arith, f))
  ]
]

operate-IsInside : (control : Control) (r : Replay) → IsInside r → IsInside (operate control r)
unfolding operate
operate-IsInside restart r h = omega arith
operate-IsInside back r h = omega (arith, h)
operate-IsInside forward r h = ground (arith, h)
operate-IsInside play_or_pause r h = ground (arith, h)

step-IsInside : {r s : Replay} → Step r s → IsInside r → IsInside s
unfolding reset seek
step-IsInside resets h = omega arith
step-IsInside (ticks {r}) h = tick-IsInside r h
step-IsInside (loads events) h = omega arith
step-IsInside (waits loading error) h = h
step-IsInside (operates {r} control) h = operate-IsInside control r h
step-IsInside (seeks position l) h = omega (arith, l)

-- However a replay is loaded, played, paused, moved and reset, its cursor stands at one of its events,
-- or at 0 when it has none.
pub Reachable-IsInside : {r : Replay} → Reachable r → IsInside r
Reachable-IsInside (start n z) = rw z omega arith
Reachable-IsInside (step before s) = step-IsInside s (Reachable-IsInside before)

unfoldable pub ticked : ℕ → Replay → Replay
unfolding tick
ticked zero r = r
ticked (suc n) r = ticked n (tick r)

tick-moves :
    (r : Replay)
    → r.playing ≡ true
    → r.cursor + 1 < total_of r
    → tick r ≡ record r { cursor = r.cursor + 1 }
unfolding tick
tick-moves r p l =
    let e : (not r.playing || total_of r == 0) ≡ false = ground (arith, p, l) in
    let f : leb (total_of r - 1) r.cursor ≡ false = ground (arith, l) in rw (tick, e, f) refl

tick-stops :
    (r : Replay)
    → r.playing ≡ true
    → r.cursor + 1 ≡ total_of r
    → tick r ≡ record r { playing = false }
unfolding tick
tick-stops r p l =
    let e : (not r.playing || total_of r == 0) ≡ false = ground (arith, p, l) in
    let f : leb (total_of r - 1) r.cursor ≡ true = ground (arith, l) in rw (tick, e, f) refl

ticked-plays :
    (n : ℕ) (r : Replay)
    → r.cursor + suc n ≡ total_of r
    → r.playing ≡ true
    → ((ticked (suc n) r).playing ≡ false)
      × ((ticked (suc n) r).cursor + 1 ≡ total_of r)
      × ((ticked (suc n) r).snapshot ≡ r.snapshot)
unfolding ticked
ticked-plays zero r l p = rw (tick-stops r p l) (refl, l, refl)
ticked-plays (suc n) r l p =
    let next : Replay = record r { cursor = r.cursor + 1 } in
    let moved : ticked (suc (suc n)) r ≡ ticked (suc n) next =
      ap (ticked (suc n)) (tick-moves r p (omega (arith, l))) in
    simp moved (ticked-plays n next (omega (arith, l)) p)

-- A replay that plays comes to its end: as many ticks of the timer as there are events left, that of
-- the cursor counted, show the last event and stop the play, with the events unchanged.
pub ticked-ends :
    (r : Replay)
    → IsInside r
    → r.playing ≡ true
    → 0 < total_of r
    → ((ticked (total_of r - r.cursor) r).playing ≡ false)
      × ((ticked (total_of r - r.cursor) r).cursor + 1 ≡ total_of r)
      × ((ticked (total_of r - r.cursor) r).snapshot ≡ r.snapshot)
ticked-ends r h p l =
    let n : total_of r - r.cursor ≡ suc (total_of r - r.cursor - 1) = omega (arith, h, l) in
    rw n (ticked-plays (total_of r - r.cursor - 1) r (omega (arith, h, l)) p)
