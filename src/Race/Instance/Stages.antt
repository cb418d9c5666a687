-- ===== src/Race/Instance/Stages.antt =====
-- The stages of a race, one tick at a time.
use alicia_server.Common.{
  ℕ, ◌+◌, ◌≤◌, ◌<◌, ◌≡◌, ◌↔◌, ◌⊎◌, inl, inr, refl, arith, Bool, true, false, Option, none, some, [],
  ◌∷◌, leb, not, ◌&&◌, Bool-cases,
}
use alicia_server.Common.Map.{Map}
use alicia_server.Common.Outcome.{Outcome, Exception, returned, threw}
use alicia_server.Race.Tracker.{Racer}
use alicia_server.Race.Instance.{
  RaceInstance, MapBlockInfo, Stage, waiting_stage, loading_stage, racing_stage, finishing_stage,
  race_countdown, race_final, all_racers, any_racer, is_loaded, is_finishing, is_done, drop_racers,
  seconds, tick_loading, tick_racing, tick_finishing, tick_stage, single,
}

drop_racers-loaded : (m : Map Racer) → all_racers is_loaded (drop_racers m) ≡ true
unfolding all_racers drop_racers
drop_racers-loaded [] = refl
drop_racers-loaded ((uid, r) ∷ m) = ground (arith, drop_racers-loaded m)

-- A tick of a loading race: it goes on loading while a racer loads and the time is not over.
-- Otherwise, if the map is known, the countdown is announced for the time at which the race starts,
-- every racer races or is disconnected, and the race runs until its time limit, or without end in
-- single mode. It never leaves the loading stage without that.
pub tick_loading_lem :
    (now : ℕ) (info : MapBlockInfo) (r : RaceInstance)
    → let after = tick_loading now (some info) r in
      (((all_racers is_loaded r.tracker.racers ≡ false) × (now < r.stage_timeout_time_point))
        × (after ≡ (returned [], r)))
      ⊎ (((all_racers is_loaded r.tracker.racers ≡ true) ⊎ (r.stage_timeout_time_point ≤ now))
          × (after.0 ≡ returned (race_countdown after.1.race_start_time_point ∷ []))
          × (after.1.stage ≡ racing_stage)
          × (all_racers is_loaded after.1.tracker.racers ≡ true)
          × (after.1.race_start_time_point ≡ now + seconds info.wait_time)
          × ((r.team_mode ≡ single)
              ⊎ (after.1.stage_timeout_time_point ≡ now + seconds info.time_limit)))
unfolding tick_loading
tick_loading_lem now info r = ground (arith, drop_racers-loaded r.tracker.racers)

-- A tick of a race: the race goes on until its first racer finishes or its time is over, and then the
-- others have fifteen seconds. The finale is announced exactly when the time was over.
pub tick_racing_lem :
    (now : ℕ) (r : RaceInstance)
    → let after = tick_racing now r in
      ((any_racer is_finishing r.tracker.racers ≡ false)
        × (now < r.stage_timeout_time_point)
        × (after ≡ (returned [], r)))
      ⊎ (((any_racer is_finishing r.tracker.racers ≡ true) ⊎ (r.stage_timeout_time_point ≤ now))
          × (after.1.stage ≡ finishing_stage)
          × (after.1.stage_timeout_time_point ≡ now + seconds 15)
          × ((after.0 ≡ returned (race_final ∷ [])) ↔ (r.stage_timeout_time_point ≤ now)))
unfolding tick_racing
tick_racing_lem now r = ground arith

abbrev goes_on : ℕ → RaceInstance → Bool
goes_on now r =
    not (all_racers is_done r.tracker.racers) && not (leb r.stage_timeout_time_point now)

-- A tick of a finishing race: it waits for its racers until the fifteen seconds are over, and then
-- the race goes back to waiting if Stop returned; where Stop throws it stays, with the time over or
-- everyone done as before, so that the next tick stops it once more.
pub tick_finishing_lem :
    (now : ℕ) (stopped : Outcome (Unit {0})) (r : RaceInstance)
    → let after = tick_finishing now stopped r in
      ((all_racers is_done r.tracker.racers ≡ false)
        × (now < r.stage_timeout_time_point)
        × (after ≡ (returned [], r)))
      ⊎ (((all_racers is_done r.tracker.racers ≡ true) ⊎ (r.stage_timeout_time_point ≤ now))
          × (((stopped ≡ returned tt) × (after.1.stage ≡ waiting_stage))
              ⊎ ((e : Exception) × (stopped ≡ threw e) × (after ≡ (threw e, r)))))
unfolding tick_finishing
tick_finishing_lem now (returned done) r = ground arith
tick_finishing_lem now (threw e) r = elim (Bool-cases (goes_on now r)) [
  | inl h ↦ inl (ground (arith, h))
  | inr h ↦ inr (ground (arith, h), inr (e, refl, ground (arith, h)))
]

-- The stages in their order, with waiting both before and behind the others.
abbrev pub Follows : Stage → Stage → Type 0
Follows waiting_stage s = s ≡ waiting_stage
Follows loading_stage s = (s ≡ loading_stage) ⊎ (s ≡ racing_stage)
Follows racing_stage s = (s ≡ racing_stage) ⊎ (s ≡ finishing_stage)
Follows finishing_stage s = (s ≡ finishing_stage) ⊎ (s ≡ waiting_stage)

loading-Follows :
    (now : ℕ) (block : Option MapBlockInfo) (r : RaceInstance)
    → r.stage ≡ loading_stage
    → Follows loading_stage (tick_loading now block r).1.stage
unfolding tick_loading
loading-Follows now none r e = ground arith
loading-Follows now (some info) r e = ground arith

racing-Follows :
    (now : ℕ) (r : RaceInstance)
    → r.stage ≡ racing_stage
    → Follows racing_stage (tick_racing now r).1.stage
unfolding tick_racing
racing-Follows now r e = ground arith

finishing-Follows :
    (now : ℕ) (stopped : Outcome (Unit {0})) (r : RaceInstance)
    → r.stage ≡ finishing_stage
    → Follows finishing_stage (tick_finishing now stopped r).1.stage
unfolding tick_finishing
finishing-Follows now (returned done) r e = ground arith
finishing-Follows now (threw x) r e = ground arith

staged-Follows :
    (stage : Stage) (now : ℕ) (block : Option MapBlockInfo) (stopped : Outcome (Unit {0}))
    (r : RaceInstance)
    → r.stage ≡ stage
    → Follows stage (tick_stage now block stopped r).1.stage
unfolding tick_stage
staged-Follows waiting_stage now block stopped r e = rw (e, tick_stage) e
staged-Follows loading_stage now block stopped r e =
    rw (e, tick_stage) (loading-Follows now block r e)
staged-Follows racing_stage now block stopped r e = rw (e, tick_stage) (racing-Follows now r e)
staged-Follows finishing_stage now block stopped r e =
    rw (e, tick_stage) (finishing-Follows now stopped r e)

-- Whatever the clock, the map and Stop do, a tick leaves a race in its stage or takes it to the next one,
-- and never starts one.
pub tick_stage-Follows :
    (now : ℕ) (block : Option MapBlockInfo) (stopped : Outcome (Unit {0})) (r : RaceInstance)
    → Follows r.stage (tick_stage now block stopped r).1.stage
tick_stage-Follows now block stopped r = staged-Follows r.stage now block stopped r refl
