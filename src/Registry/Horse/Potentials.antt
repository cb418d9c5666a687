-- ===== src/Registry/Horse/Potentials.antt =====
-- The growth of potentials in src/libserver/registry/HorseRegistry.cpp.
use alicia_server.Common.{
  ℕ, zero, suc, ◌+◌, ◌*◌, ◌-◌, ◌≡◌, ◌≢◌, ◌≤◌, ◌<◌, ◌⊎◌, inl, inr, refl, arith, min, max, List, [],
  ◌∷◌, none, some, get_elem?,
}
use alicia_server.Common.Map.{Map}
use alicia_server.Registry.Horse.{
  Horse, PotentialGrowth, PotentialLevel, max_transition_level, max_potential_value,
  max_potential_points, target_level, entries, raffle_points, grow, apply_potential_growth,
}

-- No amount of the raffle is above the most a horse may gain by a level.
abbrev AreSmall : List (ℕ × ℕ) → Type 0
AreSmall [] = Unit {0}
AreSmall ((points, weight) ∷ tickets) = (points ≤ max_potential_points) × AreSmall tickets

entries-AreSmall : (column : ℕ) (growths : Map PotentialGrowth) → AreSmall (entries column growths)
unfolding entries
entries-AreSmall column [] = tt
entries-AreSmall column ((point_amount, growth) ∷ growths) =
    ground (arith, entries-AreSmall column growths)

small_points :
    (tickets : List (ℕ × ℕ)) (i : ℕ)
    → AreSmall tickets
    → (elim (get_elem? tickets i) as (λ x. ℕ) [ none ↦ 0 | some (points, weight) ↦ points ])
      ≤ max_potential_points
small_points [] i h = omega arith
small_points ((points, weight) ∷ tickets) zero h = h.0
small_points ((points, weight) ∷ tickets) (suc i) h = small_points tickets i h.1

module _ (raffle : List ℕ → ℕ) where
  raffle_points_le :
      (column : ℕ) (growths : Map PotentialGrowth)
      → raffle_points raffle (entries column growths) ≤ max_potential_points
  unfolding raffle_points
  raffle_points_le column growths =
      small_points (entries column growths) _ (entries-AreSmall column growths)

  -- The rounds end at the target, or past the last transition, with at most the most points of each.
  grow-bounds :
      (fuel : ℕ) (growths : Map PotentialGrowth) (target level gained_points : ℕ)
      → max_transition_level < fuel + level
      → let done = grow raffle fuel growths target level gained_points in
        (done.0 ≡ max level (min target (max_transition_level + 1)))
        × (done.1 ≤ gained_points + max_potential_points * (done.0 - level))
  unfolding grow
  grow-bounds zero growths target level gained_points enough = ground arith
  grow-bounds (suc fuel) growths target level gained_points enough = ground (
    arith,
    raffle_points_le (level - 1) growths,
    grow-bounds fuel growths target (level + 1)
        (gained_points + raffle_points raffle (entries (level - 1) growths)),
  )

  grow_stop :
      (fuel : ℕ) (growths : Map PotentialGrowth) (target level gained_points : ℕ)
      → (target ≤ level) ⊎ (max_transition_level < level)
      → grow raffle fuel growths target level gained_points ≡ (level, gained_points)
  unfolding grow
  grow_stop zero growths target level gained_points h = refl
  grow_stop (suc fuel) growths target level gained_points h = ground (arith, h)

-- A horse without a potential, or whose potential gains no points, stays as it is. Else its level is
-- the one that its progress has reached by the table, or the one past the last transition, its value
-- goes up by the points, to 100 at most, and the points are at most 15 for each level.
pub apply_potential_growth-cases :
    (raffle : List ℕ → ℕ) (growths : Map PotentialGrowth) (levels : List PotentialLevel)
    (horse : Horse)
    → horse.potential_value ≤ max_potential_value
    → let (after, gained) = apply_potential_growth raffle growths levels horse in
      let target = target_level horse.clazz_progress 1 levels in
      let level = max horse.potential_level 1 in
      ((gained ≡ 0) × (after ≡ horse))
      ⊎ ((horse.potential_type ≢ 0)
          × (after ≡ record horse {
            potential_value = min (horse.potential_value + gained) max_potential_value;
            potential_level = max level (min target (max_transition_level + 1));
          })
          × (gained ≤ max_potential_points * (after.potential_level - level)))
unfolding apply_potential_growth
apply_potential_growth-cases raffle growths levels horse small = ground (
  arith,
  grow-bounds raffle max_transition_level growths (target_level horse.clazz_progress 1 levels)
      (max horse.potential_level 1) 0 (omega arith),
)

-- A horse whose level is the target or past the last transition is settled.
settled :
    (raffle : List ℕ → ℕ) (growths : Map PotentialGrowth) (levels : List PotentialLevel)
    (horse : Horse)
    → (target_level horse.clazz_progress 1 levels ≤ max horse.potential_level 1)
      ⊎ (max_transition_level < max horse.potential_level 1)
    → apply_potential_growth raffle growths levels horse ≡ (horse, 0)
unfolding apply_potential_growth
settled raffle growths levels horse h = ground (
  arith,
  grow_stop raffle max_transition_level growths (target_level horse.clazz_progress 1 levels)
      (max horse.potential_level 1) 0 h,
)

-- Points are given once: after a growth that gained some, another gains none and changes nothing,
-- however the raffles fall.
pub apply_potential_growth-again :
    (raffle other : List ℕ → ℕ) (growths : Map PotentialGrowth) (levels : List PotentialLevel)
    (horse : Horse)
    → horse.potential_value ≤ max_potential_value
    → let (after, gained) = apply_potential_growth raffle growths levels horse in
      gained ≢ 0 → apply_potential_growth other growths levels after ≡ (after, 0)
apply_potential_growth-again raffle other growths levels horse small some_gained =
    elim (apply_potential_growth-cases raffle growths levels horse small) [
      | inl (nothing, same) ↦ absurd (some_gained nothing)
      | inr (carries, e, least) ↦ rw (e) (settled other growths levels _ (ground arith))
    ]
