-- ===== src/Race/Instance.antt =====
-- RaceInstance of src/server/race/RaceInstance.cpp and include/server/race/RaceInstance.hpp: the
-- stages of a race and the magic gauge of its racers.
--
-- A call reads the clock at one time point `now`, in nanoseconds. What the course registry has for the
-- map block is an argument, `none` where it throws. Stop enters by its outcome, and what it does to
-- the players' balances and the room is not part of this file. Messages to the clients are values.
pub mod Stages
pub mod Cycle
pub mod Gauge
use alicia_server.Common.{
  ℕ, ◌+◌, ◌-◌, ◌*◌, ◌/◌, ◌%◌, ◌^◌, min, Bool, true, false, not, ◌&&◌, ◌||◌, Option, none, some,
  List, [], ◌∷◌, ltb, leb, ◌==◌, if◌then◌else◌, is_some,
}
use alicia_server.Common.Map.{Map}
use alicia_server.Common.Outcome.{Outcome, returned, threw, runtime_error}
use alicia_server.Race.Tracker.{
  RaceTracker, Racer, State, disconnected, loading, racing, finishing, time_point_max, milliseconds,
  SetEquipEffect, passive_gauge_faster, gauge_while_holding, is_racer,
}
use alicia_server.Race.Magic.{RegenInfo, SetBonusInfo, effect_at, uint32}

pub data Stage : Type 0 where
  waiting_stage loading_stage racing_stage finishing_stage : Stage

-- protocol::TeamMode
pub data TeamMode : Type 0 where
  ffa team single : TeamMode

-- what a race reads of registry::Course::MapBlockInfo, in seconds
pub record MapBlockInfo : Type 0 where
  pub time_limit : ℕ
  pub wait_time : ℕ

pub record RaceInstance : Type 0 where
  pub team_mode : TeamMode
  pub stage : Stage
  pub loading_start_time_point : ℕ
  pub race_start_time_point : ℕ
  pub stage_timeout_time_point : ℕ
  pub tracker : RaceTracker

-- AcCmdUserRaceCountdown to all, or AcCmdUserRaceFinalNotify to the participants
pub data Notice : Type 0 where
  race_countdown : (race_start_time_point : ℕ) → Notice
  race_final : Notice

-- std::chrono::seconds
abbrev pub seconds : ℕ → ℕ
seconds n = n * 10 ^ 9

-- RaceInstance::Start; `prepared` is whether PrepareGameMode and PrepareMap did not throw.
unfoldable pub start : (prepared : Bool) → TeamMode → (now : ℕ) → RaceInstance → Bool × RaceInstance
start false mode now r = (false, record r { team_mode = mode })
start true mode now r = (
  true,
  record r {
    team_mode = mode;
    stage = loading_stage;
    loading_start_time_point = now;
    stage_timeout_time_point = now + seconds 60;
  },
)

-- std::ranges::all_of over the racers
unfoldable pub all_racers : (State → Bool) → Map Racer → Bool
all_racers f [] = true
all_racers f ((uid, r) ∷ racers) = f r.state && all_racers f racers

abbrev pub is_loaded : State → Bool
is_loaded racing = true
is_loaded disconnected = true
is_loaded _ = false

abbrev pub is_racing : State → Bool
is_racing racing = true
is_racing _ = false

abbrev pub is_finishing : State → Bool
is_finishing finishing = true
is_finishing _ = false

abbrev pub is_done : State → Bool
is_done finishing = true
is_done disconnected = true
is_done _ = false

-- the loop of TickLoading: who has not loaded counts as disconnected
unfoldable pub drop_racers : Map Racer → Map Racer
drop_racers [] = []
drop_racers ((uid, r) ∷ racers) =
    (uid, if is_racing r.state then r else record r { state = disconnected }) ∷ drop_racers racers

-- RaceInstance::TickLoading
unfoldable pub tick_loading :
    (now : ℕ) → Option MapBlockInfo → RaceInstance → Outcome (List Notice) × RaceInstance
tick_loading now block r =
    let loaded = all_racers is_loaded r.tracker.racers in
    let timeout_reached = leb r.stage_timeout_time_point now in
    let dropped : RaceInstance = record r {
      tracker = record r.tracker { racers = drop_racers r.tracker.racers };
    } in
    if not loaded && not timeout_reached then (returned [], r) else elim block [
      | none ↦ (threw runtime_error, dropped)
      | some info ↦ (
        returned (race_countdown (now + seconds info.wait_time) ∷ []),
        record dropped {
          stage = racing_stage;
          stage_timeout_time_point = elim r.team_mode [
            | single ↦ time_point_max
            | _ ↦ now + seconds info.time_limit
          ];
          race_start_time_point = now + seconds info.wait_time;
        },
      )
    ]

-- std::ranges::any_of over the racers
unfoldable pub any_racer : (State → Bool) → Map Racer → Bool
any_racer f [] = false
any_racer f ((uid, r) ∷ racers) = f r.state || any_racer f racers

-- RaceInstance::TickRacing
unfoldable pub tick_racing : (now : ℕ) → RaceInstance → Outcome (List Notice) × RaceInstance
tick_racing now r =
    let timeout_reached = leb r.stage_timeout_time_point now in
    let someone_finishing = any_racer is_finishing r.tracker.racers in
    let finished : RaceInstance = record r {
      stage = finishing_stage;
      stage_timeout_time_point = now + seconds 15;
    } in
    if not someone_finishing && not timeout_reached
    then (returned [], r)
    else (returned (if timeout_reached then race_final ∷ [] else []), finished)

-- RaceInstance::TickFinishing; `stopped` is the outcome of Stop.
unfoldable pub tick_finishing :
    (now : ℕ) → (stopped : Outcome (Unit {0})) → RaceInstance → Outcome (List Notice) × RaceInstance
tick_finishing now stopped r =
    let all_finished = all_racers is_done r.tracker.racers in
    let timeout_reached = leb r.stage_timeout_time_point now in
    if not all_finished && not timeout_reached then (returned [], r) else elim stopped [
      | threw e ↦ (threw e, r)
      | returned done ↦ (returned [], record r { stage = waiting_stage })
    ]

-- The stage tick of RaceInstance::Tick, which logs what a stage throws.
unfoldable pub tick_stage :
    (now : ℕ)
    → Option MapBlockInfo
    → (stopped : Outcome (Unit {0})) → RaceInstance
    → Outcome (List Notice) × RaceInstance
tick_stage now block stopped r = elim r.stage [
  | waiting_stage ↦ (returned [], r)
  | loading_stage ↦ tick_loading now block r
  | racing_stage ↦ tick_racing now r
  | finishing_stage ↦ tick_finishing now stopped r
]

-- gainedPerTick of TickMagicGauge
unfoldable pub gained_per_tick : RegenInfo → SetBonusInfo → Racer → ℕ
gained_per_tick regen bonus racer =
    let base =
      uint32 (
        regen.point_per_tick
        * uint32 (1000 + uint32 (regen.courage_scale_bp * racer.mount_stats.courage)))
      / 1000 in
    let faster : ℕ = elim racer.active_set_effect [
      | passive_gauge_faster ↦ uint32 (base * uint32 (10000 + bonus.passive_gauge_scale_bp)) / 10000
      | _ ↦ base
    ] in
    let buffed = if effect_at 20 racer || effect_at 21 racer then uint32 (faster * 2) else faster in
    if is_some racer.magic_item
    then uint32 (buffed * bonus.holding_gauge_scale_bp) / 10000
    else buffed

abbrev pub can_regen : Racer → Bool
can_regen racer =
    not (is_some racer.magic_item)
    || elim racer.active_set_effect [ gauge_while_holding ↦ true | _ ↦ false ]

-- The body of the loop of TickMagicGauge for one racer: the racer, and whether it is to be given a
-- magic item. It runs after the start of the race; an interval of 0 ticks never.
unfoldable pub regenerate :
    (now race_start star_points_max : ℕ) → RegenInfo → SetBonusInfo → Racer → Bool × Racer
regenerate now race_start star_points_max regen bonus racer =
    let anchor =
      if racer.last_gauge_update_time_point == time_point_max
      then race_start
      else racer.last_gauge_update_time_point in
    let elapsed_tick_count = (now - anchor) / milliseconds regen.interval_ms in
    let total_gain = uint32 (gained_per_tick regen bonus racer * uint32 elapsed_tick_count) in
    let points =
      if can_regen racer && ltb racer.star_point_value star_points_max
      then min star_points_max (uint32 (racer.star_point_value + total_gain))
      else racer.star_point_value in
    let updated : Racer =
      if ltb 0 elapsed_tick_count
      then record racer { last_gauge_update_time_point = now; star_point_value = points }
      else record racer { last_gauge_update_time_point = anchor } in
    (not (is_some racer.magic_item) && leb star_points_max updated.star_point_value, updated)
