-- ===== src/Race/Instance/Cycle.antt =====
-- A race that has started comes to an end.
use alicia_server.Common.{
  ℕ, ◌+◌, ◌≤◌, ◌<◌, ◌≡◌, ◌≢◌, ◌⊎◌, inl, inr, refl, arith, true, List, [], ◌∷◌, some,
}
use alicia_server.Common.Outcome.{returned}
use alicia_server.Race.Tracker.{RaceTracker}
use alicia_server.Race.Instance.{
  RaceInstance, MapBlockInfo, TeamMode, single, waiting_stage, loading_stage, racing_stage,
  finishing_stage, start, seconds, tick_stage, tick_loading, tick_racing, tick_finishing,
}

-- A tick: its time, and what has become of the tracker and its racers before it.
pub record Moment : Type 0 where
  pub now : ℕ
  pub tracker : RaceTracker

abbrev ticked : MapBlockInfo → Moment → RaceInstance → RaceInstance
ticked info m r = (tick_stage m.now (some info) (returned tt) (record r { tracker = m.tracker })).1

-- The ticks one after the other, with the map known and Stop returning.
unfoldable pub run : MapBlockInfo → List Moment → RaceInstance → RaceInstance
run info [] r = r
run info (m ∷ ms) r = run info ms (ticked info m r)

-- The ticks follow the time `begun` and each other, none more than `gap` later.
abbrev pub AreSteady : (gap begun : ℕ) → List Moment → Type 0
AreSteady gap begun [] = Unit {0}
AreSteady gap begun (m ∷ ms) = (begun ≤ m.now) × (m.now ≤ begun + gap) × AreSteady gap m.now ms

-- the time of the last tick
abbrev pub last_time : (begun : ℕ) → List Moment → ℕ
last_time begun [] = begun
last_time begun (m ∷ ms) = last_time m.now ms

-- What is left of a race that has been ticked until `seen` and is over by `end`.
abbrev EndsBy : (limit gap end seen : ℕ) → RaceInstance → Type 0
EndsBy limit gap end seen r =
    (r.team_mode ≢ single)
    × ((r.stage ≡ waiting_stage)
        ⊎ ((seen ≤ r.stage_timeout_time_point)
            × (((r.stage ≡ loading_stage)
                  × (r.stage_timeout_time_point + gap + limit + gap + seconds 15 ≤ end))
                ⊎ ((r.stage ≡ racing_stage) × (r.stage_timeout_time_point + gap + seconds 15 ≤ end))
                ⊎ ((r.stage ≡ finishing_stage) × (r.stage_timeout_time_point ≤ end)))))

module _ (info : MapBlockInfo) (gap end seen : ℕ) (m : Moment) (r : RaceInstance) where
  waiting-EndsBy :
      r.team_mode ≢ single
      → r.stage ≡ waiting_stage
      → EndsBy (seconds info.time_limit) gap end m.now (ticked info m r)
  unfolding tick_stage
  waiting-EndsBy mode e = (ground (arith, e, mode), inl (ground (arith, e)))

  loading-EndsBy :
      r.team_mode ≢ single
      → r.stage ≡ loading_stage
      → m.now ≤ seen + gap
      → seen ≤ r.stage_timeout_time_point
      → r.stage_timeout_time_point + gap + seconds info.time_limit + gap + seconds 15 ≤ end
      → EndsBy (seconds info.time_limit) gap end m.now (ticked info m r)
  unfolding tick_stage tick_loading
  loading-EndsBy mode e near before bound = rw (e) (ground arith)

  racing-EndsBy :
      r.team_mode ≢ single
      → r.stage ≡ racing_stage
      → m.now ≤ seen + gap
      → seen ≤ r.stage_timeout_time_point
      → r.stage_timeout_time_point + gap + seconds 15 ≤ end
      → EndsBy (seconds info.time_limit) gap end m.now (ticked info m r)
  unfolding tick_stage tick_racing
  racing-EndsBy mode e near before bound = rw (e) (ground arith)

  finishing-EndsBy :
      r.team_mode ≢ single
      → r.stage ≡ finishing_stage
      → r.stage_timeout_time_point ≤ end
      → EndsBy (seconds info.time_limit) gap end m.now (ticked info m r)
  unfolding tick_stage tick_finishing
  finishing-EndsBy mode e bound = rw (e) (ground arith)

  ticked-EndsBy :
      m.now ≤ seen + gap
      → EndsBy (seconds info.time_limit) gap end seen r
      → EndsBy (seconds info.time_limit) gap end m.now (ticked info m r)
  ticked-EndsBy near (mode, ends) = elim ends [
    | inl e ↦ waiting-EndsBy mode e
    | inr (before, inl (e, bound)) ↦ loading-EndsBy mode e near before bound
    | inr (before, inr (inl (e, bound))) ↦ racing-EndsBy mode e near before bound
    | inr (before, inr (inr (e, bound))) ↦ finishing-EndsBy mode e bound
  ]

run-EndsBy :
    (info : MapBlockInfo) (gap end seen : ℕ) (ms : List Moment) (r : RaceInstance)
    → AreSteady gap seen ms
    → EndsBy (seconds info.time_limit) gap end seen r
    → EndsBy (seconds info.time_limit) gap end (last_time seen ms) (run info ms r)
unfolding run
run-EndsBy info gap end seen [] r steady ends = ends
run-EndsBy info gap end seen (m ∷ ms) r (after, near, steady) ends =
    run-EndsBy info gap end m.now ms (ticked info m r) steady
      (ticked-EndsBy info gap end seen m r near ends)

over :
    (limit gap end seen : ℕ) (r : RaceInstance)
    → EndsBy limit gap end seen r
    → end < seen
    → r.stage ≡ waiting_stage
over limit gap end seen r (mode, ends) late = elim ends [
  | inl e ↦ e
  | inr (before, inl (e, bound)) ↦ absurd (omega arith)
  | inr (before, inr (inl (e, bound))) ↦ absurd (omega arith)
  | inr (before, inr (inr (e, bound))) ↦ absurd (omega arith)
]

-- A race that is not a single one, whose map is known and for which Stop returns, is waiting again once
-- it has been ticked past a minute, the time limit of the map, fifteen seconds and twice the longest
-- time between two ticks after its start, whatever happens to the tracker and its racers between the
-- ticks.
pub run-returns :
    (mode : TeamMode) (begun gap : ℕ) (info : MapBlockInfo) (ms : List Moment) (r : RaceInstance)
    → mode ≢ single
    → AreSteady gap begun ms
    → begun + seconds 60 + gap + seconds info.time_limit + gap + seconds 15 < last_time begun ms
    → (run info ms (start true mode begun r).1).stage ≡ waiting_stage
unfolding start
run-returns mode begun gap info ms r m steady late =
    let limit : ℕ = seconds info.time_limit in
    let end : ℕ = begun + seconds 60 + gap + limit + gap + seconds 15 in
    over limit gap end (last_time begun ms) (run info ms (start true mode begun r).1)
      (run-EndsBy info gap end begun ms (start true mode begun r).1 steady
        (m, inr (omega arith, inl (refl, omega arith))))
      late
