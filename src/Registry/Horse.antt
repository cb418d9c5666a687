-- ===== src/Registry/Horse.antt =====
-- HorseRegistry of src/libserver/registry/HorseRegistry.cpp: the classes, the potentials and the
-- grades of horses. What is random is an argument: `raffle` gives the index that the distribution of
-- the weights draws. A weight of a float is a number here, since nothing but the raffle reads it.
pub mod Classes
pub mod Potentials
pub mod Grades
mod Tests
use alicia_server.Common.{
  ℕ, zero, suc, ◌+◌, ◌-◌, ◌*◌, ◌%◌, ◌^◌, min, max, List, [], ◌∷◌, Bool, true, false, Option, none,
  some, ltb, leb, ◌==◌, if◌then◌else◌, get_elem?, map,
}
use alicia_server.Common.Map.{Map}

-- the fields of data::Horse that the registry changes
pub record Horse : Type 0 where
  pub clazz : ℕ
  pub clazz_progress : ℕ
  pub growth_points : ℕ
  pub potential_type : ℕ
  pub potential_level : ℕ
  pub potential_value : ℕ

pub record LevelUpPoints : Type 0 where
  pub base : ℕ
  pub exp10 : ℕ
  pub exp20 : ℕ

pub record PotentialGrowth : Type 0 where
  pub weights : List ℕ

pub record PotentialLevel : Type 0 where
  pub level : ℕ
  pub required_class_progression : ℕ

pub record GradeInfo : Type 0 where
  pub min_stat_sum : ℕ

-- HorseRegistry::GetCumulativeClassExp
unfoldable pub get_cumulative_class_exp : LevelUpPoints → ℕ → ℕ
get_cumulative_class_exp points level =
    let transitions = level - 1 in
    let first = min transitions 10 * points.base % 2 ^ 32 in
    let second =
      if ltb 10 transitions
      then (first + min (transitions - 10) 10 * points.exp10) % 2 ^ 32
      else first in
    let third =
      if ltb 20 transitions
      then (second + (transitions - 20) * points.exp20) % 2 ^ 32
      else second in
    if leb level 1 then 0 else third

abbrev pub max_class : ℕ
max_class = 30

-- the loop of ApplyClassProgress from a level; the fuel bounds its rounds
unfoldable pub climb : (fuel : ℕ) → LevelUpPoints → (progress level growth_points : ℕ) → ℕ × ℕ
climb zero points progress level growth_points = (level, growth_points)
climb (suc fuel) points progress level growth_points =
    let gained = if level + 1 == max_class then 2 else 1 in
    let rest = climb fuel points progress (level + 1) ((growth_points + gained) % 2 ^ 32) in
    if ltb level max_class
    then (if leb (get_cumulative_class_exp points (level + 1)) progress
        then rest
        else (level, growth_points))
    else (level, growth_points)

-- HorseRegistry::ApplyClassProgress
unfoldable pub apply_class_progress : LevelUpPoints → Horse → (gained_exp : ℕ) → Horse
apply_class_progress points horse gained_exp =
    let level = max horse.clazz 1 in
    let progress = (horse.clazz_progress + gained_exp) % 2 ^ 32 in
    let (reached, growth) = climb max_class points progress level horse.growth_points in
    if leb max_class level
    then horse
    else record horse { clazz = reached; clazz_progress = progress; growth_points = growth }

abbrev pub max_transition_level : ℕ
max_transition_level = 10

abbrev pub max_potential_value : ℕ
max_potential_value = 100

abbrev pub max_potential_points : ℕ
max_potential_points = 15

-- the level that the progress of a horse has reached, from a level on
unfoldable pub target_level : (progress from : ℕ) → List PotentialLevel → ℕ
target_level progress from [] = from
target_level progress from (l ∷ levels) =
    let next = if leb l.required_class_progression progress then max from l.level else from in
    target_level progress next levels

-- the point amounts of the raffle, each with its weight in a column
unfoldable pub entries : (column : ℕ) → Map PotentialGrowth → List (ℕ × ℕ)
entries column [] = []
entries column ((point_amount, growth) ∷ growths) =
    let rest = entries column growths in
    if ltb max_potential_points point_amount
    then rest
    else (point_amount, elim (get_elem? growth.weights column) [ none ↦ 0 | some w ↦ w ]) ∷ rest

module _ (raffle : List ℕ → ℕ) where
  -- the points that a raffle over the entries gives
  unfoldable pub raffle_points : List (ℕ × ℕ) → ℕ
  raffle_points tickets =
      elim (get_elem? tickets (raffle (map (λ (ticket : ℕ × ℕ). ticket.1) tickets))) [
        | none ↦ 0
        | some (points, weight) ↦ points
      ]

  -- the loop of ApplyPotentialGrowth; the fuel bounds its rounds
  unfoldable pub grow : (fuel : ℕ) → Map PotentialGrowth → (target level gained_points : ℕ) → ℕ × ℕ
  grow zero growths target level gained_points = (level, gained_points)
  grow (suc fuel) growths target level gained_points =
      let gained = raffle_points (entries (level - 1) growths) in
      let rest = grow fuel growths target (level + 1) (gained_points + gained) in
      if ltb level target
      then (if leb level max_transition_level then rest else (level, gained_points))
      else (level, gained_points)

  -- HorseRegistry::ApplyPotentialGrowth
  unfoldable pub apply_potential_growth :
      Map PotentialGrowth → List PotentialLevel → Horse → Horse × ℕ
  apply_potential_growth growths levels horse =
      let target = target_level horse.clazz_progress 1 levels in
      let (level, gained) =
        grow max_transition_level growths target (max horse.potential_level 1) 0 in
      if horse.potential_type == 0 then (horse, 0) else if gained == 0 then (horse, 0) else (
        record horse {
          potential_value = min ((horse.potential_value + gained) % 2 ^ 32) max_potential_value;
          potential_level = level;
        },
        gained,
      )

-- the loop of GetGradeForStatSum, with the highest grade so far
unfoldable pub highest_grade : (stat_sum result : ℕ) → Map GradeInfo → ℕ
highest_grade stat_sum result [] = result
highest_grade stat_sum result ((grade, info) ∷ grades) =
    let better = highest_grade stat_sum grade grades in
    let same = highest_grade stat_sum result grades in
    if leb info.min_stat_sum stat_sum then (if ltb result grade then better else same) else same

-- HorseRegistry::GetGradeForStatSum
unfoldable pub get_grade_for_stat_sum : Map GradeInfo → ℕ → ℕ
get_grade_for_stat_sum grades stat_sum = highest_grade stat_sum 1 grades
