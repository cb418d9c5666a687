-- ===== src/Ranch/Genetics/Bucket.antt =====
-- The stats and the grade of a foal of src/server/ranch/Genetics.cpp against each other.
use alicia_server.Common.{
  ℕ, ◌-◌, ◌*◌, ◌^◌, ◌≡◌, ◌≤◌, ◌<◌, ◌⊎◌, inl, inr, arith, List, Among, eq-cases,
}
use alicia_server.Common.Map.{Map}
use alicia_server.Registry.Horse.{GradeInfo, get_grade_for_stat_sum}
use alicia_server.Registry.Horse.Grades.{get_grade_for_stat_sum_iff}
use alicia_server.Ranch.Genetics.Foal.{
  GradeProbabilityRow, calculate_foal_grade, Stats, base_stats, total, calculate_foal_stats,
  target_grade, foal_grade,
}
use alicia_server.Ranch.Genetics.Sums.{IsRoundedDown, total-calculate_foal_stats, no_total}

calculate_foal_grade-bounds :
    (rows : List GradeProbabilityRow) (child_grade_limit roll mare_grade stallion_grade : ℕ)
    → 1 ≤ child_grade_limit
    → child_grade_limit ≤ 10
    → let grade = calculate_foal_grade rows child_grade_limit roll mare_grade stallion_grade in
      (1 ≤ grade) × (grade ≤ child_grade_limit)
unfolding calculate_foal_grade
calculate_foal_grade-bounds rows child_grade_limit roll mare_grade stallion_grade some_limit small =
    ground arith

-- The table of the grades has the grades up to a limit, and ten stats lead from one to the next.
abbrev pub IsBucketed : Map GradeInfo → ℕ → Type 0
IsBucketed grades limit =
    ((grade : ℕ) (info : GradeInfo)
      → Among (grade, info) grades
      → info.min_stat_sum ≡ (grade - 1) * 10)
    × ((grade : ℕ) → 1 ≤ grade → grade ≤ limit → (info : GradeInfo) × Among (grade, info) grades)

grade_of_bucket :
    (grades : Map GradeInfo) (limit grade stat_sum : ℕ)
    → IsBucketed grades limit
    → 1 ≤ grade
    → grade ≤ limit
    → (grade - 1) * 10 ≤ stat_sum
    → stat_sum < grade * 10
    → get_grade_for_stat_sum grades stat_sum ≡ grade
grade_of_bucket grades limit grade stat_sum (each, complete) from to low high =
    let (info, among) = complete grade from to in
    let least =
      (get_grade_for_stat_sum_iff grades stat_sum grade).1
        (inr (grade, info, among, omega (arith, each grade info among), omega arith)) in
    elim ((get_grade_for_stat_sum_iff grades stat_sum (get_grade_for_stat_sum grades stat_sum)).0
      (omega arith)) [
        | inl one ↦ omega (arith, least, one)
        | inr (g, i, there, met, better) ↦ omega (arith, least, met, better, each g i there)
      ]

target_grade-bounds :
    (rows : List GradeProbabilityRow)
    (child_grade_limit grade_bonus roll mare_grade stallion_grade : ℕ)
    → 1 ≤ child_grade_limit
    → child_grade_limit ≤ 10
    → grade_bonus < 2 ^ 8
    → let grade = target_grade rows child_grade_limit grade_bonus roll mare_grade stallion_grade in
      (1 ≤ grade) × (grade ≤ child_grade_limit)
unfolding target_grade
target_grade-bounds rows child_grade_limit grade_bonus roll mare_grade stallion_grade some_limit
      small bonus =
    ground (
      arith,
      calculate_foal_grade-bounds rows child_grade_limit roll mare_grade stallion_grade some_limit
          small,
    )

foal_grade_of :
    (scaled : (stat target current : ℕ) → ℕ) (grades : Map GradeInfo)
    (child_grade_limit target_total grade sum : ℕ) (draws mare_stats stallion_stats : Stats)
    → IsBucketed grades child_grade_limit
    → child_grade_limit ≤ 10
    → 1 ≤ grade
    → grade ≤ child_grade_limit
    → total (calculate_foal_stats scaled target_total draws mare_stats stallion_stats) ≡ sum
    → (grade - 1) * 10 ≤ sum
    → sum < grade * 10
    → foal_grade scaled grades child_grade_limit target_total draws mare_stats stallion_stats
      ≡ grade
unfolding foal_grade
foal_grade_of scaled grades child_grade_limit target_total grade sum draws mare_stats stallion_stats
      table small from to e low high =
    rw (e)
      (rw (grade_of_bucket grades child_grade_limit grade sum table from to low high) (omega arith))

-- For a limit of at most ten grades, a table that leads from one grade to the next by ten stats, and
-- a total drawn from the ten of the target grade: the five stats of a foal sum to the total, and its
-- grade is the target grade, which lies between one and the limit. When all the base stats are zero
-- there is nothing to scale: the stats stay zero, and the grade is one whatever the target.
pub foal_grade-target_grade :
    (scaled : (stat target current : ℕ) → ℕ) (grades : Map GradeInfo)
    (rows : List GradeProbabilityRow)
    (child_grade_limit grade_bonus roll mare_grade stallion_grade target_total : ℕ)
    (draws mare_stats stallion_stats : Stats)
    → IsRoundedDown scaled
    → IsBucketed grades child_grade_limit
    → 1 ≤ child_grade_limit
    → child_grade_limit ≤ 10
    → grade_bonus < 2 ^ 8
    → let target = target_grade rows child_grade_limit grade_bonus roll mare_grade stallion_grade in
      (target - 1) * 10 ≤ target_total
      → target_total < target * 10
      → let base = total (base_stats draws mare_stats stallion_stats) in
        let sum =
          total (calculate_foal_stats scaled target_total draws mare_stats stallion_stats) in
        let grade =
          foal_grade scaled grades child_grade_limit target_total draws mare_stats stallion_stats in
        (1 ≤ target)
        × (target ≤ child_grade_limit)
        × (((0 < base) × (sum ≡ target_total) × (grade ≡ target))
            ⊎ ((base ≡ 0) × (sum ≡ 0) × (grade ≡ 1)))
foal_grade-target_grade scaled grades rows child_grade_limit grade_bonus roll mare_grade
      stallion_grade target_total draws mare_stats stallion_stats rounded table some_limit small
      bonus low high =
    let bounds =
      target_grade-bounds rows child_grade_limit grade_bonus roll mare_grade stallion_grade
        some_limit small bonus in
    (
      bounds.0,
      bounds.1,
      elim (eq-cases (total (base_stats draws mare_stats stallion_stats)) 0) [
        | inl none_left ↦
            let sum = no_total scaled target_total draws mare_stats stallion_stats none_left in
            inr (
              none_left,
              sum,
              foal_grade_of scaled grades child_grade_limit target_total 1 0 draws mare_stats
                  stallion_stats table small (omega arith) some_limit sum (omega arith)
                  (omega arith),
            )
        | inr some_left ↦
            let sum =
              total-calculate_foal_stats scaled target_total draws mare_stats stallion_stats rounded
                (omega arith) (omega arith) in
            inl (
              omega arith,
              sum,
              foal_grade_of scaled grades child_grade_limit target_total _ target_total draws
                  mare_stats stallion_stats table small bounds.0 bounds.1 sum low high,
            )
      ],
    )
