-- ===== src/Registry/Horse/Grades.antt =====
-- The grade of a sum of stats in src/libserver/registry/HorseRegistry.cpp.
use alicia_server.Common.{
  ℕ, ◌≡◌, ◌≤◌, ◌⊎◌, inl, inr, refl, ap, arith, [], ◌∷◌, ltb, leb, if◌then◌else◌, Among, ◌↔◌,
}
use alicia_server.Common.Map.{Map}
use alicia_server.Registry.Horse.{GradeInfo, highest_grade, get_grade_for_stat_sum}

-- A grade of at least a bound that a sum of stats reaches by the table.
abbrev pub Attains : Map GradeInfo → (stat_sum bound : ℕ) → Type 0
Attains grades stat_sum bound =
    (grade : ℕ) × (info : GradeInfo) × Among (grade, info) grades
    × (info.min_stat_sum ≤ stat_sum)
    × (bound ≤ grade)

module _ (stat_sum : ℕ) where
  -- The highest grade after an entry.
  abbrev after_entry : (result grade : ℕ) → GradeInfo → ℕ
  after_entry result grade info =
      if leb info.min_stat_sum stat_sum
      then (if ltb result grade then grade else result)
      else result

  highest_grade_step :
      (result grade : ℕ) (info : GradeInfo) (grades : Map GradeInfo)
      → highest_grade stat_sum result ((grade, info) ∷ grades)
        ≡ highest_grade stat_sum (after_entry result grade info) grades
  unfolding highest_grade
  highest_grade_step result grade info grades = ground arith

  after_entry-cases :
      (bound result grade : ℕ) (info : GradeInfo)
      → bound ≤ after_entry result grade info
      → (bound ≤ result) ⊎ ((info.min_stat_sum ≤ stat_sum) × (bound ≤ grade))
  after_entry-cases bound result grade info h = ground (arith, h)

  highest_grade_attained :
      (bound result : ℕ) (grades : Map GradeInfo)
      → bound ≤ highest_grade stat_sum result grades
      → (bound ≤ result) ⊎ Attains grades stat_sum bound
  unfolding highest_grade
  highest_grade_attained bound result [] h = inl h
  highest_grade_attained bound result ((grade, info) ∷ grades) h =
      elim (highest_grade_attained bound (after_entry result grade info) grades
        (rw (highest_grade_step result grade info grades) at h)) [
          | inl le ↦ elim (after_entry-cases bound result grade info le) [
            | inl same ↦ inl same
            | inr (met, better) ↦ inr (grade, info, inl refl, met, better)
          ]
          | inr (g, i, among, met, better) ↦ inr (g, i, inr among, met, better)
        ]

  highest_grade_least :
      (bound result : ℕ) (grades : Map GradeInfo)
      → (bound ≤ result) ⊎ Attains grades stat_sum bound
      → bound ≤ highest_grade stat_sum result grades
  unfolding highest_grade
  highest_grade_least bound result [] (inl le) = le
  highest_grade_least bound result [] (inr (g, i, none_there, met, better)) = elim none_there [ ]
  highest_grade_least bound result ((grade, info) ∷ grades) (inl le) =
      rw (highest_grade_step result grade info grades) (
        highest_grade_least bound (after_entry result grade info) grades (inl (ground (arith, le))))
  highest_grade_least bound result ((grade, info) ∷ grades) (inr (g, i, inr among, met, better)) =
      rw (highest_grade_step result grade info grades) (
        highest_grade_least bound (after_entry result grade info) grades
          (inr (g, i, among, met, better)))
  highest_grade_least bound result ((grade, info) ∷ grades) (inr (g, i, inl here, met, better)) =
      let g_here : g ≡ grade = ap (λ (e : ℕ × GradeInfo). e.0) here in
      let i_here : i.min_stat_sum ≡ info.min_stat_sum =
        ap (λ (e : ℕ × GradeInfo). e.1.min_stat_sum) here in
      rw (highest_grade_step result grade info grades) (
        highest_grade_least bound (after_entry result grade info) grades
          (inl (ground (arith, g_here, i_here, met, better))))

-- The grade of a sum of stats is at least a bound exactly when the bound is at most one, or the table
-- has a grade from the bound on whose least sum the stats reach: it is the highest such grade, and one
-- without any. The table's order does not matter.
pub get_grade_for_stat_sum_iff :
    (grades : Map GradeInfo) (stat_sum bound : ℕ)
    → (bound ≤ get_grade_for_stat_sum grades stat_sum)
      ↔ ((bound ≤ 1) ⊎ Attains grades stat_sum bound)
unfolding get_grade_for_stat_sum
get_grade_for_stat_sum_iff grades stat_sum bound =
    (highest_grade_attained stat_sum bound 1 grades, highest_grade_least stat_sum bound 1 grades)
