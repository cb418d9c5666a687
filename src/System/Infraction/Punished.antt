-- ===== src/System/Infraction/Punished.antt =====
-- When InfractionSystem of src/server/system/InfractionSystem.cpp keeps a user out or mutes them.
use alicia_server.Common.{
  ℕ, ◌+◌, ◌≡◌, ◌⊎◌, ◌↔◌, ◌*◌, ◌^◌, ◌<◌, ◌≤◌, inl, inr, refl, arith, List, [], ◌∷◌, true, false,
  none, some,
}
use alicia_server.Common.Outcome.{returned, threw, runtime_error}
use alicia_server.System.Infraction.{
  Infraction, Punishment, mute, ban, Verdict, is_expired, expires_at, is_before, judge, judge_all,
  clean_verdict, max_duration, check_outstanding_punishments,
}

-- the time point at which an infraction ends, where 64 bits hold it
abbrev pub end_of : Infraction → ℕ
end_of infraction = infraction.created_at + infraction.duration * 10 ^ 9

-- An infraction is permanent, or its end is a time point of the clock.
abbrev pub Fits : Infraction → Type 0
Fits infraction = (infraction.duration ≡ max_duration) ⊎ (end_of infraction < 2 ^ 63)

abbrev pub AllFit : List Infraction → Type 0
AllFit [] = Unit {0}
AllFit (infraction ∷ infractions) = Fits infraction × AllFit infractions

-- An infraction with the punishment that is permanent or has not expired.
abbrev pub IsOutstanding : ℕ → Punishment → Infraction → Type 0
IsOutstanding now punishment infraction =
    (infraction.punishment ≡ punishment)
    × ((infraction.duration ≡ max_duration) ⊎ (now ≤ end_of infraction))

-- One of the infractions is outstanding.
abbrev pub AnyOutstanding : ℕ → Punishment → List Infraction → Type 0
AnyOutstanding now punishment [] = ⊥
AnyOutstanding now punishment (infraction ∷ infractions) =
    IsOutstanding now punishment infraction ⊎ AnyOutstanding now punishment infractions

is_before_iff :
    (now : ℕ) (infraction : Infraction)
    → now < 2 ^ 63
    → end_of infraction < 2 ^ 63
    → (is_before (expires_at infraction) now ≡ true) ↔ (end_of infraction < now)
unfolding is_before expires_at
is_before_iff now infraction h small = ground arith

is_expired_iff :
    (now : ℕ) (infraction : Infraction)
    → now < 2 ^ 63
    → Fits infraction
    → (is_expired now infraction ≡ false)
      ↔ ((infraction.duration ≡ max_duration) ⊎ (now ≤ end_of infraction))
unfolding is_expired
is_expired_iff now infraction h fits = elim fits [
  | inl permanent ↦ ground (arith, permanent)
  | inr small ↦ ground (arith, is_before_iff now infraction h small)
]

judge-ban :
    (now : ℕ) (infraction : Infraction) (verdict : Verdict)
    → now < 2 ^ 63
    → Fits infraction
    → ((judge now infraction verdict).prevent_server_joining ≡ true)
      ↔ ((verdict.prevent_server_joining ≡ true) ⊎ IsOutstanding now ban infraction)
unfolding judge
judge-ban now infraction verdict h fits = ground (arith, is_expired_iff now infraction h fits)

judge-mute :
    (now : ℕ) (infraction : Infraction) (verdict : Verdict)
    → now < 2 ^ 63
    → Fits infraction
    → ((judge now infraction verdict).mute_active ≡ true)
      ↔ ((verdict.mute_active ≡ true) ⊎ IsOutstanding now mute infraction)
unfolding judge
judge-mute now infraction verdict h fits = ground (arith, is_expired_iff now infraction h fits)

judge_all-ban :
    (now : ℕ) (infractions : List Infraction) (verdict : Verdict)
    → now < 2 ^ 63
    → AllFit infractions
    → ((judge_all now infractions verdict).prevent_server_joining ≡ true)
      ↔ ((verdict.prevent_server_joining ≡ true) ⊎ AnyOutstanding now ban infractions)
unfolding judge_all
judge_all-ban now [] verdict h fits = ground arith
judge_all-ban now (infraction ∷ infractions) verdict h (one, fits) = ground (
  arith,
  judge_all-ban now infractions (judge now infraction verdict) h fits,
  judge-ban now infraction verdict h one,
)

judge_all-mute :
    (now : ℕ) (infractions : List Infraction) (verdict : Verdict)
    → now < 2 ^ 63
    → AllFit infractions
    → ((judge_all now infractions verdict).mute_active ≡ true)
      ↔ ((verdict.mute_active ≡ true) ⊎ AnyOutstanding now mute infractions)
unfolding judge_all
judge_all-mute now [] verdict h fits = ground arith
judge_all-mute now (infraction ∷ infractions) verdict h (one, fits) = ground (
  arith,
  judge_all-mute now infractions (judge now infraction verdict) h fits,
  judge-mute now infraction verdict h one,
)

-- A check without the user's record throws. With it, the user is kept out of the server exactly when
-- one of the infractions is a ban that is permanent or not yet expired, and muted exactly when one is
-- such a mute, whatever the order of the infractions, provided that the clock and the end of each
-- infraction that is not permanent fit the 63 bits of a time point.
pub check_outstanding_punishments_iff :
    (now : ℕ) (infractions : List Infraction)
    → now < 2 ^ 63
    → AllFit infractions
    → (check_outstanding_punishments now none ≡ threw runtime_error)
      × ((verdict : Verdict) × (check_outstanding_punishments now (some infractions)
            ≡ returned verdict)
          × ((verdict.prevent_server_joining ≡ true) ↔ AnyOutstanding now ban infractions)
          × ((verdict.mute_active ≡ true) ↔ AnyOutstanding now mute infractions))
unfolding check_outstanding_punishments
check_outstanding_punishments_iff now infractions h fits = (
  refl,
  (
    judge_all now infractions clean_verdict,
    refl,
    ground (arith, judge_all-ban now infractions clean_verdict h fits),
    ground (arith, judge_all-mute now infractions clean_verdict h fits),
  ),
)
