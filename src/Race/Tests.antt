-- ===== src/Race/Tests.antt =====
-- Races at concrete inputs.
use alicia_server.Common.{List, ◌≡◌, arith, true, [], ◌∷◌}
use alicia_server.Common.Map.{lookup}
use alicia_server.Race.Tracker.{RaceTracker, new_racer, new_tracker}
use alicia_server.Race.Tracker.Kept.{clear_op, apply_all}
use alicia_server.Race.Tracker.Oids
use alicia_server.Race.Tracker.Oids.{joins, apply_all-Inv, apply_all-oid, add_racer-again}
use alicia_server.Race.Magic.{MagicRegistry, SlotInfo}
use alicia_server.Race.Instance.{RaceInstance, MapBlockInfo, ffa, waiting_stage, start, seconds}
use alicia_server.Race.Instance.Cycle.{Moment, run, run-returns}

new_tracker-Inv : Oids.Inv new_tracker
unfolding lookup
new_tracker-Inv = record {
  started = omega arith;
  below = λ uid oid e. ground arith;
  owned = λ u v oid e f. ground arith;
  on_record = λ uid r e. ground arith;
}

apply_all-Inv_example : Oids.Inv (apply_all (clear_op ∷ []) new_tracker)
unfolding joins
apply_all-Inv_example = apply_all-Inv (clear_op ∷ []) new_tracker new_tracker-Inv (omega arith)

-- Character 7 races under object id 1, leaves, and comes back after the race was cleared.
abbrev one_racer : RaceTracker
one_racer = record new_tracker {
  character_oids = (7, 1) ∷ [];
  next_character_oid = 2;
  racers = (7, record new_racer { oid = 1 }) ∷ [];
}

-- A fire ball of attack value 50 and rank 2, and a registry that has nothing else.
abbrev fire_ball : SlotInfo
fire_ball = record {
  type_ = 2;
  basic_type = 2;
  critical_type = 3;
  skill_effect_id = 0;
  attack_value = 50;
  effect_delay_ms = 3000;
  adjust_motion_speed = 1;
  team_mode = 0;
  remove_magic = 1;
  remove_hot_rodding = 0;
  replace_effect = 0;
  attack_rank = 2;
}

abbrev registry : MagicRegistry
registry = record {
  slot_info = (2, fire_ball) ∷ [];
  regen_info = record { point_per_tick = 1000; interval_ms = 200; courage_scale_bp = 9 };
  set_bonus_info = record {
    crit_chance_bonus_bp = 1000;
    passive_gauge_scale_bp = 3300;
    holding_gauge_scale_bp = 2000;
  };
  base_crit_chance_bp = 500;
  stat_scalings = [];
}

abbrev new_instance : RaceInstance
new_instance = record {
  team_mode = ffa;
  stage = waiting_stage;
  loading_start_time_point = 0;
  race_start_time_point = 0;
  stage_timeout_time_point = 0;
  tracker = one_racer;
}

abbrev block : MapBlockInfo
block = record { time_limit = 300; wait_time = 7 }

-- Four ticks, at most 400 seconds from one to the next.
abbrev late_ticks : List Moment
late_ticks =
    record { now = seconds 60; tracker = one_racer }
    ∷ record { now = seconds 460; tracker = one_racer }
    ∷ record { now = seconds 860; tracker = one_racer }
    ∷ record { now = seconds 1260; tracker = one_racer }
    ∷ []

run-returns_example : (run block late_ticks (start true ffa 0 new_instance).1).stage ≡ waiting_stage
run-returns_example =
    run-returns ffa 0 (seconds 400) block late_ticks new_instance (λ e. cc)
      (
        omega arith,
        omega arith,
        (omega arith, omega arith, (omega arith, omega arith, (omega arith, omega arith, tt))),
      )
      (omega arith)
