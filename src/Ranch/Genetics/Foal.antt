-- ===== src/Ranch/Genetics/Foal.antt =====
-- The grade and the stats of a foal in src/server/ranch/Genetics.cpp.
--
-- A draw of a random number is an argument. Probabilities and the roll against them are floats of the
-- source, here whole multiples of one unit small enough for them, which floats add without rounding.
-- `scaled` stands for the product with a double, rounded towards zero.
use alicia_server.Common.{
  ℕ, ◌+◌, ◌-◌, ◌/◌, ◌%◌, ◌^◌, min, max, List, [], ◌∷◌, Option, none, some, ltb, leb, ◌==◌,
  if◌then◌else◌, map,
}
use alicia_server.Common.Map.{Map}
use alicia_server.Registry.Horse.{GradeInfo, get_grade_for_stat_sum}

-- GradeProbabilityRow
pub record GradeProbabilityRow : Type 0 where
  pub grade_distance : ℕ
  pub minus3 : ℕ
  pub minus2 : ℕ
  pub minus1 : ℕ
  pub plus : List ℕ

abbrev pub no_row : GradeProbabilityRow
no_row = record { grade_distance = 0; minus3 = 0; minus2 = 0; minus1 = 0; plus = [] }

-- the loop of GetGradeProbability, with the last row so far
unfoldable pub row_or : GradeProbabilityRow → List GradeProbabilityRow → ℕ → GradeProbabilityRow
row_or last [] grade_distance = last
row_or last (row ∷ rows) grade_distance =
    let rest = row_or row rows grade_distance in
    if row.grade_distance == grade_distance then row else rest

-- BreedingRegistry::GetGradeProbability
unfoldable pub get_grade_probability : List GradeProbabilityRow → ℕ → GradeProbabilityRow
get_grade_probability rows grade_distance = row_or no_row rows grade_distance

-- the column that a roll falls into, if any
unfoldable pub column : (roll cumulative i : ℕ) → List ℕ → Option ℕ
column roll cumulative i [] = none
column roll cumulative i (p ∷ probabilities) =
    let rest = column roll (cumulative + p) (i + 1) probabilities in
    if ltb roll (cumulative + p) then some i else rest

-- std::clamp of a number less three, between one and a limit
abbrev pub clamp_less_three : (value limit : ℕ) → ℕ
clamp_less_three value limit =
    if ltb value 4 then 1 else if ltb limit (value - 3) then limit else value - 3

-- Genetics::CalculateFoalGrade
unfoldable pub calculate_foal_grade :
    List GradeProbabilityRow → (child_grade_limit roll mare_grade stallion_grade : ℕ) → ℕ
calculate_foal_grade rows child_grade_limit roll mare_grade stallion_grade =
    let min_grade = min mare_grade stallion_grade in
    let max_grade = max mare_grade stallion_grade in
    let row = get_grade_probability rows (max_grade - min_grade) in
    let probabilities = row.minus3 ∷ row.minus2 ∷ row.minus1 ∷ row.plus in
    elim (column roll 0 0 probabilities) [
      | none ↦ clamp_less_three min_grade child_grade_limit % 2 ^ 8
      | some i ↦ clamp_less_three (min_grade + i) child_grade_limit % 2 ^ 8
    ]

-- data::Horse::Stats
pub record Stats : Type 0 where
  pub agility : ℕ
  pub courage : ℕ
  pub rush : ℕ
  pub endurance : ℕ
  pub ambition : ℕ

-- the lambda calcBaseStat; a draw is the bonus from 0 to 3, or the offset from -3 to 3 plus three
unfoldable pub calc_base_stat : (draw mare_stat stallion_stat : ℕ) → ℕ
calc_base_stat draw mare_stat stallion_stat =
    let avg_stat = (mare_stat + stallion_stat) % 2 ^ 32 / 2 in
    if leb avg_stat 2 then min (avg_stat + draw) 100 else min (avg_stat + draw - 3) 100

-- the base stats as an array
unfoldable pub base_stats : (draws mare_stats stallion_stats : Stats) → List ℕ
base_stats draws mare_stats stallion_stats =
    calc_base_stat draws.agility mare_stats.agility stallion_stats.agility
    ∷ calc_base_stat draws.courage mare_stats.courage stallion_stats.courage
    ∷ calc_base_stat draws.rush mare_stats.rush stallion_stats.rush
    ∷ calc_base_stat draws.endurance mare_stats.endurance stallion_stats.endurance
    ∷ calc_base_stat draws.ambition mare_stats.ambition stallion_stats.ambition
    ∷ []

-- the sum of the stats
unfoldable pub total : List ℕ → ℕ
total [] = 0
total (stat ∷ stats) = stat + total stats

-- the largest stat
unfoldable pub largest : List ℕ → ℕ
largest [] = 0
largest (stat ∷ stats) = max stat (largest stats)

-- adds to the first stat of a value, which is what std::max_element finds for the largest
unfoldable pub add_to_first : (value difference : ℕ) → List ℕ → List ℕ
add_to_first value difference [] = []
add_to_first value difference (stat ∷ stats) =
    let rest = add_to_first value difference stats in
    if stat == value then ((stat + difference) % 2 ^ 32) ∷ stats else stat ∷ rest

-- the target grade of CreateFoal
unfoldable pub target_grade :
    List GradeProbabilityRow
    → (child_grade_limit grade_bonus roll mare_grade stallion_grade : ℕ) → ℕ
target_grade rows child_grade_limit grade_bonus roll mare_grade stallion_grade =
    let grade = calculate_foal_grade rows child_grade_limit roll mare_grade stallion_grade in
    min ((grade + grade_bonus) % 2 ^ 32) child_grade_limit % 2 ^ 8

module _ (scaled : (stat target current : ℕ) → ℕ) where
  -- the scaling of the stats to a total
  unfoldable pub scale_stats : (target : ℕ) → List ℕ → List ℕ
  scale_stats target stats =
      let current = total stats in
      let products = map (λ (stat : ℕ). scaled stat target current) stats in
      let difference = (target + (2 ^ 32 - total products % 2 ^ 32)) % 2 ^ 32 in
      let absorbed =
        if difference == 0 then products else add_to_first (largest products) difference products in
      map (λ (stat : ℕ). min stat 100) absorbed

  -- Genetics::CalculateFoalStats as an array, with the total that is drawn
  unfoldable pub calculate_foal_stats :
      (target_total : ℕ) (draws mare_stats stallion_stats : Stats) → List ℕ
  calculate_foal_stats target_total draws mare_stats stallion_stats =
      let stats = base_stats draws mare_stats stallion_stats in
      if total stats == target_total
      then stats
      else if ltb 0 (total stats)
      then scale_stats target_total stats
      else stats

  -- the grade that CreateFoal gives
  unfoldable pub foal_grade :
      Map GradeInfo
      → (child_grade_limit target_total : ℕ) (draws mare_stats stallion_stats : Stats) → ℕ
  foal_grade grades child_grade_limit target_total draws mare_stats stallion_stats =
      let stats = calculate_foal_stats target_total draws mare_stats stallion_stats in
      min (get_grade_for_stat_sum grades (total stats)) child_grade_limit % 2 ^ 8
