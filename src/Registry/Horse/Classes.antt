-- ===== src/Registry/Horse/Classes.antt =====
-- The classes that horses reach by src/libserver/registry/HorseRegistry.cpp.
use alicia_server.Common.{
  ℕ, zero, suc, ◌+◌, ◌-◌, ◌%◌, ◌^◌, ◌≡◌, ◌≤◌, ◌<◌, ◌⊎◌, inl, inr, refl, sym, ap, ◌∙◌, arith, max,
  ltb, ◌==◌, if◌then◌else◌, eq-cases,
}
use alicia_server.Registry.Horse.{
  LevelUpPoints, Horse, get_cumulative_class_exp, max_class, climb, apply_class_progress,
}

-- The level that a climb to a level ends at: those in between are reached, and the next is not.
abbrev pub IsReached : LevelUpPoints → (progress level reached : ℕ) → Type 0
IsReached points progress level reached =
    (level ≤ reached)
    × (reached ≤ max_class)
    × ((l : ℕ) → level < l → l ≤ reached → get_cumulative_class_exp points l ≤ progress)
    × ((reached ≡ max_class) ⊎ (progress < get_cumulative_class_exp points (reached + 1)))

-- The points for the levels from one to another: one for each, and one more for the last class.
abbrev pub points_for : (level reached : ℕ) → ℕ
points_for level reached =
    if reached == max_class
    then (if ltb level reached then reached - level + 1 else 0)
    else reached - level

module _ (points : LevelUpPoints) where
  climb_stop :
      (fuel progress level growth_points : ℕ)
      → (max_class ≤ level) ⊎ (progress < get_cumulative_class_exp points (level + 1))
      → climb fuel points progress level growth_points ≡ (level, growth_points)
  unfolding climb
  climb_stop zero progress level growth_points h = refl
  climb_stop (suc fuel) progress level growth_points h = ground (arith, h)

  climb_on :
      (fuel progress level growth_points : ℕ)
      → level < max_class
      → get_cumulative_class_exp points (level + 1) ≤ progress
      → climb (suc fuel) points progress level growth_points
        ≡ climb fuel points progress
            (level + 1)
            ((growth_points + (if level + 1 == max_class then 2 else 1)) % 2 ^ 32)
  unfolding climb
  climb_on fuel progress level growth_points below met = ground (arith, below, met)

  -- Whether a round goes on.
  round-cases :
      (progress level : ℕ)
      → ((max_class ≤ level) ⊎ (progress < get_cumulative_class_exp points (level + 1)))
        ⊎ ((level < max_class) × (get_cumulative_class_exp points (level + 1) ≤ progress))
  round-cases progress level = ground arith

  -- A round and the rounds after it.
  climbed :
      (fuel progress level growth_points : ℕ)
      → level < max_class
      → get_cumulative_class_exp points (level + 1) ≤ progress
      → let next = (growth_points + (if level + 1 == max_class then 2 else 1)) % 2 ^ 32 in
        let done = climb fuel points progress (level + 1) next in
        IsReached points progress (level + 1) done.0
          × (done.1 % 2 ^ 32 ≡ (next + points_for (level + 1) done.0) % 2 ^ 32)
        → IsReached points progress level done.0
          × (done.1 % 2 ^ 32 ≡ (growth_points + points_for level done.0) % 2 ^ 32)
  climbed fuel progress level growth_points below met ((from, to, each, end), gained) = (
    (
      omega arith,
      to,
      λ l a b. elim (eq-cases l (level + 1)) [
        | inl e ↦ rw (e) met
        | inr ne ↦ each l (omega arith) b
      ],
      end,
    ),
    ground (arith, gained),
  )

  climb-IsReached :
      (fuel progress level growth_points : ℕ)
      → level ≤ max_class
      → max_class ≤ fuel + level
      → let done = climb fuel points progress level growth_points in
        IsReached points progress level done.0
        × (done.1 % 2 ^ 32 ≡ (growth_points + points_for level done.0) % 2 ^ 32)
  unfolding climb
  climb-IsReached zero progress level growth_points le enough = ground arith
  climb-IsReached (suc fuel) progress level growth_points le enough =
      elim (round-cases progress level) [
        | inl stop ↦
            rw (climb_stop (suc fuel) progress level growth_points stop) (
              (omega arith, le, (λ l a b. absurd (omega arith)), ground (arith, stop)),
              ground arith,
            )
        | inr (below, met) ↦ rw (climb_on fuel progress level growth_points below met) (
            climbed fuel progress level growth_points below met
              (climb-IsReached fuel progress (level + 1) _ (omega arith) (omega arith)))
      ]

  climb_fuel :
      (fuel other progress level growth_points : ℕ)
      → max_class ≤ fuel + level
      → max_class ≤ other + level
      → climb fuel points progress level growth_points
        ≡ climb other points progress level growth_points
  unfolding climb
  climb_fuel zero other progress level growth_points enough also =
      sym (climb_stop other progress level growth_points (inl (omega arith)))
  climb_fuel (suc fuel) zero progress level growth_points enough also =
      climb_stop (suc fuel) progress level growth_points (inl (omega arith))
  climb_fuel (suc fuel) (suc other) progress level growth_points enough also =
      elim (round-cases progress level) [
        | inl stop ↦
            climb_stop (suc fuel) progress level growth_points stop
            ∙ sym (climb_stop (suc other) progress level growth_points stop)
        | inr (below, met) ↦
            climb_on fuel progress level growth_points below met
            ∙ climb_fuel fuel other progress (level + 1) _ (omega arith) (omega arith)
            ∙ sym (climb_on other progress level growth_points below met)
      ]

  climb_further :
      (fuel progress more level growth_points : ℕ)
      → max_class ≤ fuel + level
      → progress ≤ more
      → let first = climb fuel points progress level growth_points in
        climb max_class points more first.0 first.1
        ≡ climb max_class points more level growth_points
  unfolding climb
  climb_further zero progress more level growth_points enough le = refl
  climb_further (suc fuel) progress more level growth_points enough le =
      elim (round-cases progress level) [
        | inl stop ↦ rw (climb_stop (suc fuel) progress level growth_points stop) refl
        | inr (below, met) ↦ rw (climb_on fuel progress level growth_points below met) (
            climb_further fuel progress more (level + 1) _ (omega arith) le
            ∙ sym (climb_on max_class more level growth_points below (omega arith))
            ∙ climb_fuel (suc max_class) max_class more level growth_points (omega arith)
                (omega arith))
      ]

-- Class experience leaves a horse of the last class as it is. Else it counts towards the progress, and
-- the class goes up to the first one whose successor takes more, or to the last; each class between
-- takes no more than the progress. The growth points go up by one for each class, and by one more for
-- the last.
pub apply_class_progress-cases :
    (points : LevelUpPoints) (horse : Horse) (gained_exp : ℕ)
    → let done = apply_class_progress points horse gained_exp in
      let level = max horse.clazz 1 in
      ((max_class ≤ level) × (done ≡ horse))
      ⊎ ((level < max_class)
          × (done.clazz_progress ≡ (horse.clazz_progress + gained_exp) % 2 ^ 32)
          × IsReached points done.clazz_progress level done.clazz
          × (done.growth_points % 2 ^ 32
              ≡ (horse.growth_points + points_for level done.clazz) % 2 ^ 32))
unfolding apply_class_progress
apply_class_progress-cases points horse gained_exp = ground (
  arith,
  climb-IsReached points max_class ((horse.clazz_progress + gained_exp) % 2 ^ 32)
      (max horse.clazz 1) horse.growth_points,
)

apply_class_progress_below :
    (points : LevelUpPoints) (horse : Horse) (gained_exp : ℕ)
    → max horse.clazz 1 < max_class
    → horse.clazz_progress + gained_exp < 2 ^ 32
    → let progress = horse.clazz_progress + gained_exp in
      let done = climb max_class points progress (max horse.clazz 1) horse.growth_points in
      apply_class_progress points horse gained_exp
      ≡ record horse { clazz = done.0; clazz_progress = progress; growth_points = done.1 }
unfolding apply_class_progress
apply_class_progress_below points horse gained_exp below fits =
    let same : (horse.clazz_progress + gained_exp) % 2 ^ 32 ≡ horse.clazz_progress + gained_exp =
      ground arith in
    rw (same) (ground (arith, below))

apply_class_progress_last :
    (points : LevelUpPoints) (horse : Horse) (gained_exp : ℕ)
    → max_class ≤ max horse.clazz 1
    → apply_class_progress points horse gained_exp ≡ horse
unfolding apply_class_progress
apply_class_progress_last points horse gained_exp last = ground (arith, last)

-- The class and the growth points of a horse.
abbrev standing : Horse → ℕ × ℕ
standing horse = (horse.clazz, horse.growth_points)

last-cases : (level : ℕ) → (max_class ≤ level) ⊎ (level < max_class)
last-cases level = ground arith

standing_further :
    (points : LevelUpPoints) (horse : Horse) (second : ℕ)
    → 1 ≤ horse.clazz
    → horse.clazz_progress + second < 2 ^ 32
    → standing (apply_class_progress points horse second)
      ≡ climb max_class points (horse.clazz_progress + second) horse.clazz horse.growth_points
standing_further points horse second from fits =
    let here : max horse.clazz 1 ≡ horse.clazz = omega arith in
    elim (last-cases horse.clazz) [
      | inl last ↦ rw (apply_class_progress_last points horse second (omega arith)) (
          sym (
            climb_stop points max_class (horse.clazz_progress + second) horse.clazz
              horse.growth_points (inl last)))
      | inr below ↦
          rw (apply_class_progress_below points horse second (omega arith) fits) (rw (here) refl)
    ]

-- The class and the growth points do not depend on how class experience is split: for a sum that fits
-- 32 bits, given in two parts it does what it does at once.
pub apply_class_progress-add :
    (points : LevelUpPoints) (horse : Horse) (first second : ℕ)
    → horse.clazz_progress + first + second < 2 ^ 32
    → let split = apply_class_progress points (apply_class_progress points horse first) second in
      let whole = apply_class_progress points horse (first + second) in
      (split.clazz ≡ whole.clazz) × (split.growth_points ≡ whole.growth_points)
apply_class_progress-add points horse first second fits = elim (last-cases (max horse.clazz 1)) [
  | inl last ↦ rw (apply_class_progress_last points horse first last) (
      rw (apply_class_progress_last points horse second last)
        (rw (apply_class_progress_last points horse (first + second) last) (refl, refl)))
  | inr below ↦
      let level = max horse.clazz 1 in
      let progress = horse.clazz_progress + first in
      let met =
        climb-IsReached points max_class progress level horse.growth_points (omega arith)
          (omega arith) in
      let e =
        climb_further points max_class progress (progress + second) level horse.growth_points
          (omega arith) (omega arith) in
      let sum : progress + second ≡ horse.clazz_progress + (first + second) = omega arith in
      let more =
        standing_further points
          (record horse {
            clazz = (climb max_class points progress level horse.growth_points).0;
            clazz_progress = progress;
            growth_points = (climb max_class points progress level horse.growth_points).1;
          })
          second (omega arith) fits in
      let both : standing (apply_class_progress points _ second)
          ≡ climb max_class points (horse.clazz_progress + (first + second)) level
              horse.growth_points =
        more ∙ e ∙ rw (sum) refl in
      rw (apply_class_progress_below points horse first below (omega arith)) (
        rw (apply_class_progress_below points horse (first + second) below (omega arith))
          (ap (λ (p : ℕ × ℕ). p.0) both, ap (λ (p : ℕ × ℕ). p.1) both))
]
