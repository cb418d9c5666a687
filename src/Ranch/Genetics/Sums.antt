-- ===== src/Ranch/Genetics/Sums.antt =====
-- The sum of the stats of a foal in src/server/ranch/Genetics.cpp.
use native.Mathlib.Nat.{mul-le-mul_left}
use alicia_server.Common.{
  ℕ, ◌+◌, ◌-◌, ◌*◌, ◌%◌, ◌^◌, ◌≡◌, ◌≤◌, ◌<◌, ◌⊎◌, inl, inr, refl, ap, arith, min, List, [], ◌∷◌,
  true, false, ◌==◌, if◌then◌else◌, map, eq-cases, member,
}
use alicia_server.Ranch.Genetics.Foal.{
  Stats, calc_base_stat, base_stats, total, largest, add_to_first, scale_stats,
  calculate_foal_stats,
}

-- The product with the double `target / current` is no more than the exact quotient, for the sums of
-- five stats and for the totals of grades up to ten.
abbrev pub IsRoundedDown : ((stat target current : ℕ) → ℕ) → Type 0
IsRoundedDown scaled =
    (stat target current : ℕ)
    → stat ≤ current
    → current ≤ 500
    → target < 100
    → scaled stat target current * current ≤ stat * target

total-add_to_first :
    (value difference : ℕ) (stats : List ℕ)
    → member value stats ≡ true
    → total stats + difference < 2 ^ 32
    → total (add_to_first value difference stats) ≡ total stats + difference
unfolding total add_to_first
total-add_to_first value difference [] there fits = absurd (ground arith)
total-add_to_first value difference (stat ∷ stats) there fits =
    ground (arith, there, fits, total-add_to_first value difference stats)

largest-member : (stat : ℕ) (stats : List ℕ) → member (largest (stat ∷ stats)) (stat ∷ stats) ≡ true
unfolding largest
largest-member stat [] = ground arith
largest-member stat (next ∷ stats) = ground (arith, largest-member next stats)

capped :
    (limit : ℕ) (stats : List ℕ) → total stats ≤ limit → map (λ (s : ℕ). min s limit) stats ≡ stats
unfolding total
capped limit [] h = refl
capped limit (stat ∷ stats) h =
    let same : min stat limit ≡ stat = omega arith in
    rw (same) (ap (λ (l : List ℕ). stat ∷ l) (capped limit stats (omega arith)))

le-cancel : (sum target current : ℕ) → 0 < current → sum * current ≤ current * target → sum ≤ target
le-cancel sum target current some_current le = elim (order-cases sum target) [
  | inl h ↦ h
  | inr more ↦ absurd (omega (arith, mul-le-mul_left current more))
]
  where
    order-cases : (a b : ℕ) → (a ≤ b) ⊎ (b + 1 ≤ a)
    order-cases a b = ground arith

-- The remainder goes to the largest of the products, and nothing is cut.
total_absorbed :
    (target product : ℕ) (products : List ℕ)
    → total (product ∷ products) ≤ target
    → target < 100
    → let all = product ∷ products in
      let difference = (target + (2 ^ 32 - total all % 2 ^ 32)) % 2 ^ 32 in
      let absorbed = if difference == 0 then all else add_to_first (largest all) difference all in
      total (map (λ (s : ℕ). min s 100) absorbed) ≡ target
total_absorbed target product products le fits =
    let all = product ∷ products in
    let rest : (target + (2 ^ 32 - total all % 2 ^ 32)) % 2 ^ 32 ≡ target - total all =
      omega arith in
    rw (rest) (elim (eq-cases (target - total all) 0) [
      | inl e ↦ rw (e) (rw (capped 100 all (omega arith)) (omega arith))
      | inr ne ↦
          let sum =
            total-add_to_first (largest all) (target - total all) all
              (largest-member product products) (omega arith) in
          let other : ((target - total all) == 0) ≡ false = ground arith in
          rw (other) (
            rw
              (capped 100 (add_to_first (largest all) (target - total all) all)
                (omega (arith, sum)))
              (omega (arith, sum)))
    ])

module _ (scaled : (stat target current : ℕ) → ℕ) (rounded : IsRoundedDown scaled) where
  products_le :
      (target current : ℕ) (stats : List ℕ)
      → total stats ≤ current
      → current ≤ 500
      → target < 100
      → total (map (λ (stat : ℕ). scaled stat target current) stats) * current
        ≤ total stats * target
  unfolding total
  products_le target current [] le small fits = omega arith
  products_le target current (stat ∷ stats) le small fits = omega (
    arith,
    rounded stat target current (omega arith) small fits,
    products_le target current stats (omega arith) small fits,
  )

  total-scale_stats :
      (target stat : ℕ) (stats : List ℕ)
      → 0 < total (stat ∷ stats)
      → total (stat ∷ stats) ≤ 500
      → target < 100
      → total (scale_stats scaled target (stat ∷ stats)) ≡ target
  unfolding scale_stats
  total-scale_stats target stat stats some_total small fits =
      let current = total (stat ∷ stats) in
      total_absorbed target (scaled stat target current)
        (map (λ (s : ℕ). scaled s target current) stats)
        (le-cancel _ target current some_total
          (products_le target current (stat ∷ stats) (omega arith) small fits))
        fits

base_stat_le :
    (draw mare_stat stallion_stat : ℕ) → calc_base_stat draw mare_stat stallion_stat ≤ 100
unfolding calc_base_stat
base_stat_le draw mare_stat stallion_stat = ground arith

base_total_le :
    (draws mare_stats stallion_stats : Stats)
    → total (base_stats draws mare_stats stallion_stats) ≤ 500
unfolding base_stats total
base_total_le draws mare_stats stallion_stats = omega (
  arith,
  base_stat_le draws.agility mare_stats.agility stallion_stats.agility,
  base_stat_le draws.courage mare_stats.courage stallion_stats.courage,
  base_stat_le draws.rush mare_stats.rush stallion_stats.rush,
  base_stat_le draws.endurance mare_stats.endurance stallion_stats.endurance,
  base_stat_le draws.ambition mare_stats.ambition stallion_stats.ambition,
)

pub total-calculate_foal_stats :
    (scaled : (stat target current : ℕ) → ℕ) (target_total : ℕ)
    (draws mare_stats stallion_stats : Stats)
    → IsRoundedDown scaled
    → target_total < 100
    → 0 < total (base_stats draws mare_stats stallion_stats)
    → total (calculate_foal_stats scaled target_total draws mare_stats stallion_stats)
      ≡ target_total
unfolding calculate_foal_stats base_stats
total-calculate_foal_stats scaled target_total draws mare_stats stallion_stats rounded fits
      some_total =
    ground (
      arith,
      base_total_le draws mare_stats stallion_stats,
      total-scale_stats scaled rounded target_total
          (calc_base_stat draws.agility mare_stats.agility stallion_stats.agility) _ some_total,
    )

pub no_total :
    (scaled : (stat target current : ℕ) → ℕ) (target_total : ℕ)
    (draws mare_stats stallion_stats : Stats)
    → total (base_stats draws mare_stats stallion_stats) ≡ 0
    → total (calculate_foal_stats scaled target_total draws mare_stats stallion_stats) ≡ 0
unfolding calculate_foal_stats
no_total scaled target_total draws mare_stats stallion_stats e = ground (arith, e)
