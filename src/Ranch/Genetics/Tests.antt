-- ===== src/Ranch/Genetics/Tests.antt =====
-- Foals at concrete inputs.
use native.Mathlib.Nat.{div-mul-le_self}
use alicia_server.Common.{
  ℕ, zero, suc, ◌-◌, ◌*◌, ◌/◌, ◌≡◌, ◌≤◌, ◌<◌, ◌⊎◌, inl, inr, refl, ap, arith, List, [], ◌∷◌, Among,
}
use alicia_server.Common.Map.{Map, lookup}
use alicia_server.Ranch.Market.{HorseType}
use alicia_server.Registry.Horse.{GradeInfo}
use alicia_server.Ranch.Genetics.{Horse, calculate_lineage}
use alicia_server.Ranch.Genetics.Foal.{
  GradeProbabilityRow, get_grade_probability, column, row_or, calculate_foal_grade, Stats,
  base_stats, total, calculate_foal_stats, target_grade, foal_grade,
}
use alicia_server.Ranch.Genetics.Sums.{IsRoundedDown}
use alicia_server.Ranch.Genetics.Bucket.{IsBucketed, foal_grade-target_grade}
use alicia_server.Ranch.Genetics.Lineages.{IsWithin, calculate_lineage-le}

abbrev mother : Horse
mother = record {
  skin_tid = 4;
  mane_tid = 1;
  tail_tid = 1;
  mother = 0;
  father = 0;
  lineage = 1;
  potential_type = 0;
  type = HorseType.adult;
  date_of_birth = 0;
}

empty-IsWithin : IsWithin [] ((8, mother) ∷ [])
unfolding lookup
empty-IsWithin uid horse e = cc

calculate_lineage-le_example :
    calculate_lineage [] 4 8 9 ≤ calculate_lineage ((8, mother) ∷ []) 4 8 9
calculate_lineage-le_example =
    calculate_lineage-le [] ((8, mother) ∷ []) 4 8 9 (λ e. omega arith) empty-IsWithin

-- The exact quotient, rounded down.
abbrev exact : (stat target current : ℕ) → ℕ
exact stat target current = stat * target / current

exact-IsRoundedDown : IsRoundedDown exact
exact-IsRoundedDown stat target current le small fits = div-mul-le_self (stat * target) current

-- Two grades.
abbrev grades : Map GradeInfo
grades = (1, record { min_stat_sum = 0 }) ∷ (2, record { min_stat_sum = 10 }) ∷ []

grades-IsBucketed : IsBucketed grades 2
grades-IsBucketed = (from_ten, complete)
  where
    from_ten :
        (grade : ℕ) (info : GradeInfo)
        → Among (grade, info) grades
        → info.min_stat_sum ≡ (grade - 1) * 10
    from_ten grade info (inl e) =
        omega
          (arith, ap (λ (p : ℕ × GradeInfo). p.0) e, ap (λ (p : ℕ × GradeInfo). p.1.min_stat_sum) e)
    from_ten grade info (inr (inl e)) =
        omega
          (arith, ap (λ (p : ℕ × GradeInfo). p.0) e, ap (λ (p : ℕ × GradeInfo). p.1.min_stat_sum) e)
    from_ten grade info (inr (inr nothing)) = elim nothing [ ]

    complete : (grade : ℕ) → 1 ≤ grade → grade ≤ 2 → (info : GradeInfo) × Among (grade, info) grades
    complete zero from to = absurd (omega arith)
    complete (suc zero) from to = (record { min_stat_sum = 0 }, inl refl)
    complete (suc (suc zero)) from to = (record { min_stat_sum = 10 }, inr (inl refl))
    complete (suc (suc (suc grade))) from to = absurd (omega arith)

abbrev rows : List GradeProbabilityRow
rows = record { grade_distance = 0; minus3 = 0; minus2 = 0; minus1 = 40; plus = 60 ∷ [] } ∷ []

abbrev five_stats : Stats
five_stats = record { agility = 4; courage = 6; rush = 5; endurance = 3; ambition = 8 }

abbrev three_draws : Stats
three_draws = record { agility = 3; courage = 2; rush = 4; endurance = 3; ambition = 0 }

-- Two parents of the second grade, a roll of 50 of 100, and a total of 14.
foal_grade-target_grade_example :
    (1 ≤ target_grade rows 2 0 50 2 2)
    × (target_grade rows 2 0 50 2 2 ≤ 2)
    × (((0 < total (base_stats three_draws five_stats five_stats))
          × (total (calculate_foal_stats exact 14 three_draws five_stats five_stats) ≡ 14)
          × (foal_grade exact grades 2 14 three_draws five_stats five_stats
              ≡ target_grade rows 2 0 50 2 2))
        ⊎ ((total (base_stats three_draws five_stats five_stats) ≡ 0)
            × (total (calculate_foal_stats exact 14 three_draws five_stats five_stats) ≡ 0)
            × (foal_grade exact grades 2 14 three_draws five_stats five_stats ≡ 1)))
unfolding target_grade calculate_foal_grade get_grade_probability row_or column
foal_grade-target_grade_example =
    foal_grade-target_grade exact grades rows 2 0 50 2 2 14 three_draws five_stats five_stats
      exact-IsRoundedDown grades-IsBucketed (omega arith) (omega arith) (omega arith) (omega arith)
      (omega arith)
