-- ===== src/Race/Results/Winner.antt =====
-- The winning team in src/server/race/RaceInstance.cpp is that of a fastest finisher.
use alicia_server.Common.{
  ℕ, ◌≡◌, ◌⊎◌, ◌≤◌, ◌<◌, inl, inr, refl, arith, [], ◌∷◌, true, false, not, ◌&&◌, Among, ltb, ◌==◌,
  Bool-cases,
}
use alicia_server.Common.Map.{Map}
use alicia_server.Race.Tracker.{Racer, Team, solo, invalid_course_time}
use alicia_server.Race.Instance.{team}
use alicia_server.Race.Results.{fastest, winning_team, is_connected}

-- A racer who is connected and has a course time.
abbrev pub IsFinisher : Racer → Type 0
IsFinisher racer = (is_connected racer.state ≡ true) × (racer.course_time < invalid_course_time)

-- Every finisher has at least this course time.
abbrev pub AreSlower : ℕ → Map Racer → Type 0
AreSlower best [] = Unit
AreSlower best ((uid, racer) ∷ racers) =
    (IsFinisher racer → best ≤ racer.course_time) × AreSlower best racers

-- A finisher of that team whom nobody beats.
abbrev pub IsFastest : Map Racer → Team → Type 0
IsFastest racers winner =
    (uid : ℕ) × (racer : Racer) × Among (uid, racer) racers
    × IsFinisher racer
    × (winner ≡ racer.team)
    × AreSlower racer.course_time racers

AreSlower-mono :
    (less best : ℕ) (racers : Map Racer)
    → less ≤ best
    → AreSlower best racers
    → AreSlower less racers
AreSlower-mono less best [] le h = tt
AreSlower-mono less best ((uid, racer) ∷ racers) le h =
    (λ f. let slow = h.0 f in omega (arith, slow), AreSlower-mono less best racers le h.1)

-- whether the loop takes a racer
takes-cases :
    (racer : Racer) (best : ℕ)
    → best ≤ invalid_course_time
    → let test =
        is_connected racer.state
        && not (racer.course_time == invalid_course_time)
        && ltb racer.course_time best in
      ((test ≡ true) × IsFinisher racer × (racer.course_time < best))
      ⊎ ((test ≡ false) × (IsFinisher racer → best ≤ racer.course_time))
takes-cases racer best le = ground (arith, Bool-cases (is_connected racer.state))

-- The loop keeps the team that it has, or ends with that of a faster finisher.
fastest-cases :
    (racers : Map Racer) (best : ℕ) (winner : Team)
    → best ≤ invalid_course_time
    → ((fastest racers best winner ≡ winner) × AreSlower best racers)
      ⊎ ((uid : ℕ) × (racer : Racer) × Among (uid, racer) racers
          × (IsFinisher racer × (racer.course_time < best))
          × (fastest racers best winner ≡ racer.team)
          × AreSlower racer.course_time racers)
unfolding fastest
fastest-cases [] best winner le = inl (refl, tt)
fastest-cases ((uid, racer) ∷ racers) best winner le = elim (takes-cases racer best le) [
  | inl (e, f, faster) ↦
      elim (fastest-cases racers racer.course_time racer.team (omega (arith, f.1))) [
        | inl (same, slow) ↦
            inr (uid, racer, inl refl, (f, faster), rw (e, fastest) same, (λ g. omega arith, slow))
        | inr (u, r, there, (fin, less), same, slow) ↦ inr (
          u,
          r,
          inr there,
          (fin, omega (arith, less, faster)),
          rw (e, fastest) same,
          (λ g. omega (arith, less), slow),
        )
      ]
  | inr (e, slower) ↦ elim (fastest-cases racers best winner le) [
    | inl (same, slow) ↦ inl (rw (e, fastest) same, (slower, slow))
    | inr (u, r, there, (fin, less), same, slow) ↦ inr (
      u,
      r,
      inr there,
      (fin, less),
      rw (e, fastest) same,
      (λ g. let s = slower g in omega (arith, less, s), slow),
    )
  ]
]

-- In a race of teams, the winning team is that of a connected racer with a course time whom no other
-- connected racer beats; when no connected racer has a course time, no team wins.
pub winning_team-IsFastest :
    (racers : Map Racer)
    → ((winning_team team racers ≡ solo) × AreSlower invalid_course_time racers)
      ⊎ IsFastest racers (winning_team team racers)
unfolding winning_team
winning_team-IsFastest racers = elim (fastest-cases racers invalid_course_time solo (omega arith)) [
  | inl h ↦ inl h
  | inr (u, r, there, (fin, less), same, slow) ↦ inr (u, r, there, fin, same, slow)
]
