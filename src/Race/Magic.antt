-- ===== src/Race/Magic.antt =====
-- MagicSystem of src/server/race/MagicSystem.cpp and include/server/race/MagicSystem.hpp, and the
-- parts of include/libserver/registry/MagicRegistry.hpp and MagicRegistry.cpp that it reads.
--
-- A number that the source tests for being different from 0 is a number here too. The delay of an
-- effect is a floating-point number of seconds in the source, read only as `effectDelay * 1000.0f`
-- cut to an integer: it is the field `effect_delay_ms`. The 32-bit products and sums wrap.
pub mod Resolution
pub mod Duration
use alicia_server.Common.{
  ℕ, ◌+◌, ◌-◌, ◌*◌, ◌/◌, ◌%◌, ◌^◌, min, Bool, true, false, not, ◌&&◌, ◌||◌, Option, none, some,
  List, [], ◌∷◌, ltb, leb, ◌==◌, if◌then◌else◌, get_elem?,
}
use alicia_server.Common.Map.{Map, lookup}
use alicia_server.Common.Outcome.{Outcome, returned, threw, runtime_error, ◌>>=◌}
use alicia_server.Race.Tracker.{Racer, MountStatsSnapshot, effect_count}

abbrev pub uint32 : ℕ → ℕ
uint32 n = n % 2 ^ 32

-- registry::Magic::MountStat
pub data MountStat : Type 0 where
  agility ambition rush endurance courage : MountStat

pub record SlotInfo : Type 0 where
  pub type_ : ℕ
  pub basic_type : ℕ
  pub critical_type : ℕ
  pub skill_effect_id : ℕ
  pub attack_value : ℕ
  pub effect_delay_ms : ℕ
  pub adjust_motion_speed : ℕ
  pub team_mode : ℕ
  pub remove_magic : ℕ
  pub remove_hot_rodding : ℕ
  pub replace_effect : ℕ
  pub attack_rank : ℕ

pub record RegenInfo : Type 0 where
  pub point_per_tick : ℕ
  pub interval_ms : ℕ
  pub courage_scale_bp : ℕ

pub record StatScaling : Type 0 where
  pub stat : MountStat
  pub duration_scale_bp : ℕ
  pub crit_step_bp : ℕ
  pub target_duration_reduction_bp : ℕ

pub record SetBonusInfo : Type 0 where
  pub crit_chance_bonus_bp : ℕ
  pub passive_gauge_scale_bp : ℕ
  pub holding_gauge_scale_bp : ℕ

pub record MagicRegistry : Type 0 where
  pub slot_info : Map SlotInfo
  pub regen_info : RegenInfo
  pub set_bonus_info : SetBonusInfo
  pub base_crit_chance_bp : ℕ
  pub stat_scalings : Map StatScaling

-- MagicRegistry::GetSlotInfo
unfoldable pub get_slot_info : ℕ → MagicRegistry → Outcome SlotInfo
get_slot_info key registry = elim (lookup key registry.slot_info) [
  | none ↦ threw runtime_error
  | some slot ↦ returned slot
]

-- MagicRegistry::GetStatScaling
unfoldable pub get_stat_scaling : ℕ → MagicRegistry → Option StatScaling
get_stat_scaling basic_type registry = lookup basic_type registry.stat_scalings

-- a number read as a condition
abbrev pub is_set : ℕ → Bool
is_set n = not (n == 0)

-- whether a number is one of those listed, as the labels of a switch
abbrev pub is_any : ℕ → List ℕ → Bool
is_any n [] = false
is_any n (m ∷ ms) = n == m || is_any n ms

-- MagicSystem::GetMountStatValue
abbrev pub get_mount_stat_value : MountStatsSnapshot → MountStat → ℕ
get_mount_stat_value stats MountStat.agility = stats.agility
get_mount_stat_value stats MountStat.ambition = stats.ambition
get_mount_stat_value stats MountStat.rush = stats.rush
get_mount_stat_value stats MountStat.endurance = stats.endurance
get_mount_stat_value stats MountStat.courage = stats.courage

-- MagicSystem::IsSelfCast: WaterShield, Booster and HotRodding with their critical kin
abbrev pub is_self_cast : ℕ → Bool
is_self_cast magic_type = is_any magic_type (4 ∷ 5 ∷ 6 ∷ 7 ∷ 8 ∷ 9 ∷ [])

-- MagicSystem::IsTeamBuff: BufPower, BufGauge and BufSpeed with their critical kin
abbrev pub is_team_buff : ℕ → Bool
is_team_buff magic_type = is_any magic_type (20 ∷ 21 ∷ 22 ∷ 23 ∷ 24 ∷ 25 ∷ [])

-- MagicSystem::IsIceWall
abbrev pub is_ice_wall : ℕ → Bool
is_ice_wall magic_type = magic_type == 10 || magic_type == 11

-- MagicSystem::IsValidSkillEffectId
unfoldable pub is_valid_skill_effect_id : ℕ → Bool
is_valid_skill_effect_id skill_effect_id =
    ltb skill_effect_id effect_count && not (skill_effect_id == 4)

abbrev pub heavy_attack_rank : ℕ
heavy_attack_rank = 2

-- MagicSystem::IsStrippedByAttack
unfoldable pub is_stripped_by_attack : (attack active : SlotInfo) → Bool
is_stripped_by_attack attack active =
    let id = active.skill_effect_id in
    if is_any id (6 ∷ 7 ∷ 18 ∷ 19 ∷ 20 ∷ 21 ∷ [])
    then false
    else if is_any id (10 ∷ 11 ∷ 12 ∷ 13 ∷ [])
    then is_set attack.remove_magic && leb heavy_attack_rank attack.attack_rank
    else if is_any id (5 ∷ 22 ∷ 23 ∷ [])
    then is_set attack.remove_magic || attack.basic_type == 12
    else if id == 2
    then is_set attack.remove_magic || attack.type_ == 13 || attack.type_ == 15
    else is_set attack.remove_magic && is_set active.adjust_motion_speed && active.attack_value == 0

-- MagicSystem::DrainsGaugeOnHit
abbrev pub drains_gauge_on_hit : SlotInfo → Bool
drains_gauge_on_hit attack = is_any attack.type_ (3 ∷ 17 ∷ 18 ∷ 19 ∷ [])

-- An element of the array of effects. Behind its 24 elements C++ leaves the read undefined; here
-- there is nothing set.
unfoldable pub effect_at : ℕ → Racer → Bool
effect_at id racer = elim (get_elem? racer.effects id) [ none ↦ false | some e ↦ e ]

pub record EffectResolution : Type 0 where
  pub effect_id : ℕ
  pub shield_blocks : Bool
  pub is_duplicated : Bool

-- shieldThreshold of ResolveEffect
unfoldable pub shield_threshold : Racer → ℕ
shield_threshold racer = if effect_at 3 racer then 200 else if effect_at 2 racer then 100 else 0

-- hotRoddingBlocks of ResolveEffect
unfoldable pub hot_rodding_blocks : SlotInfo → Racer → Bool
hot_rodding_blocks slot racer =
    let is_attack = ltb 0 slot.attack_value in
    let is_lightning = is_attack && is_set slot.remove_hot_rodding in
    let is_critical_lightning = is_lightning && slot.critical_type == 0 in
    is_attack
    && ((effect_at 6 racer && not is_lightning) || (effect_at 7 racer && not is_critical_lightning))

-- occupiedEffectId of ResolveEffect
unfoldable pub occupied_effect_id : MagicRegistry → SlotInfo → Outcome ℕ
occupied_effect_id registry slot =
    if is_set slot.replace_effect
    then returned slot.skill_effect_id
    else (get_slot_info slot.basic_type registry >>= λ basic. returned basic.skill_effect_id)

-- The resolution that ResolveEffect fills in, with the occupied effect known.
unfoldable pub resolution : ℕ → SlotInfo → Racer → EffectResolution
resolution occupied slot racer =
    let is_attack = ltb 0 slot.attack_value in
    let shield_blocks = is_attack && ltb slot.attack_value (shield_threshold racer) in
    record {
      effect_id =
          if shield_blocks then (if effect_at 3 racer then 3 else 2) else slot.skill_effect_id;
      shield_blocks = shield_blocks;
      is_duplicated =
          hot_rodding_blocks slot racer
          || (is_attack && ltb slot.attack_rank 2 && leb 2 racer.attack_rank)
          || (if ltb 0 slot.attack_rank
              then leb slot.attack_rank racer.attack_rank
              else effect_at occupied racer && (is_attack || not (is_set slot.replace_effect)));
    }

-- MagicSystem::ResolveEffect
unfoldable pub resolve_effect : MagicRegistry → SlotInfo → Racer → Outcome EffectResolution
resolve_effect registry slot racer =
    occupied_effect_id registry slot >>= λ occupied. returned (resolution occupied slot racer)

abbrev pub max_duration_bonus_bp : ℕ
max_duration_bonus_bp = 1150

-- the part of ComputeEffectDurationMs that the attacker's stat lengthens
unfoldable pub lengthen : StatScaling → Option Racer → ℕ → ℕ
lengthen scaling none duration = duration
lengthen scaling (some attacker) duration =
    let stat_value = get_mount_stat_value attacker.mount_stats scaling.stat in
    let bonus_bp = min (uint32 (scaling.duration_scale_bp * stat_value)) max_duration_bonus_bp in
    if ltb 0 scaling.duration_scale_bp
    then uint32 (duration * (1000 + bonus_bp)) / 1000
    else duration

-- the part that the target's stat shortens
unfoldable pub shorten : StatScaling → Racer → ℕ → ℕ
shorten scaling target duration =
    let stat_value = get_mount_stat_value target.mount_stats scaling.stat in
    let reduction_bp = min (uint32 (scaling.target_duration_reduction_bp * stat_value)) 1000 in
    if ltb 0 scaling.target_duration_reduction_bp
    then uint32 (duration * (1000 - reduction_bp)) / 1000
    else duration

-- MagicSystem::ComputeEffectDurationMs
unfoldable pub compute_effect_duration_ms : MagicRegistry → SlotInfo → Option Racer → Racer → ℕ
compute_effect_duration_ms registry slot attacker target =
    elim (get_stat_scaling slot.basic_type registry) [
      | none ↦ slot.effect_delay_ms
      | some scaling ↦ shorten scaling target (lengthen scaling attacker slot.effect_delay_ms)
    ]
