-- ===== src/Registry/Character/Levels.antt =====
-- The level that an amount of experience reaches.
use alicia_server.Common.{
  ℕ, ◌≤◌, ◌<◌, ◌≡◌, ◌⊎◌, ◌↔◌, inl, inr, refl, arith, List, [], ◌∷◌, none, some, Option-cases,
  eq-cases,
}
use alicia_server.Registry.Character.{
  CharacterLevelInfo, get_level_info, level_from, get_level_for_exp, get_exp_required_for_level,
}

-- The entries go up in level and in experience, from a level and an amount on.
abbrev pub AreAscending : (level exp : ℕ) → List CharacterLevelInfo → Type 0
AreAscending level exp [] = Unit {0}
AreAscending level exp (info ∷ infos) =
    (level < info.level)
    × (exp ≤ info.exp_required)
    × AreAscending info.level info.exp_required infos

level_from_above :
    (total current exp : ℕ) (infos : List CharacterLevelInfo)
    → AreAscending current exp infos
    → current ≤ level_from total current infos
unfolding level_from
level_from_above total current exp [] a = omega arith
level_from_above total current exp (info ∷ infos) a =
    let (level, more, rest) = a in
    ground (arith, level, level_from_above total info.level info.exp_required infos rest)

above_none :
    (level current exp : ℕ) (infos : List CharacterLevelInfo)
    → AreAscending current exp infos
    → level ≤ current
    → get_level_info level infos ≡ none
unfolding get_level_info
above_none level current exp [] a h = refl
above_none level current exp (info ∷ infos) (up, more, rest) h =
    ground (arith, up, above_none level info.level info.exp_required infos rest (omega (arith, up)))

-- An entry that stands behind others asks for at least as much as they do.
found_above :
    (level current exp : ℕ) (infos : List CharacterLevelInfo) (info : CharacterLevelInfo)
    → AreAscending current exp infos
    → get_level_info level infos ≡ some info
    → (current < level) × (exp ≤ info.exp_required) × (info.level ≡ level)
unfolding get_level_info
found_above level current exp [] info a e = cc
found_above level current exp (i ∷ infos) info (up, more, rest) e =
    ground (arith, up, more, found_above level i.level i.exp_required infos info rest)

level_from_iff :
    (total current exp level : ℕ) (infos : List CharacterLevelInfo) (info : CharacterLevelInfo)
    → AreAscending current exp infos
    → get_level_info level infos ≡ some info
    → (level ≤ level_from total current infos) ↔ (info.exp_required ≤ total)
unfolding get_level_info level_from
level_from_iff total current exp level [] info a e = cc
level_from_iff total current exp level (i ∷ infos) info (up, more, rest) e = ground (
  arith,
  up,
  level_from_above total i.level i.exp_required infos rest,
  level_from_iff total i.level i.exp_required level infos info rest,
  found_above level i.level i.exp_required infos info rest,
)

-- The entries begin with level 1 for no experience and go up in level and experience.
abbrev pub AreLevels : List CharacterLevelInfo → Type 0
AreLevels [] = ⊥
AreLevels (first ∷ infos) = (first.level ≡ 1) × (first.exp_required ≡ 0) × AreAscending 1 0 infos

reached_first :
    (total : ℕ) (first : CharacterLevelInfo) (infos : List CharacterLevelInfo)
    → first.level ≡ 1
    → first.exp_required ≡ 0
    → get_level_for_exp total (first ∷ infos) ≡ level_from total 1 infos
unfolding get_level_for_exp level_from
reached_first total first infos one nothing = ground (arith, one, nothing)

required_first :
    (level exp : ℕ) (first : CharacterLevelInfo) (infos : List CharacterLevelInfo)
    → first.level ≡ 1
    → first.exp_required ≡ 0
    → get_exp_required_for_level level (first ∷ infos) ≡ some exp
    → ((level ≡ 1) × (exp ≡ 0))
      ⊎ ((info : CharacterLevelInfo) × (get_level_info level infos ≡ some info)
          × (info.exp_required ≡ exp))
unfolding get_exp_required_for_level get_level_info
required_first level exp first infos one nothing e =
    elim (Option-cases (get_level_info level infos)) [
      | inl f ↦ inl (ground (arith, e, f, one, nothing), ground (arith, e, f, one, nothing))
      | inr (info, f) ↦ elim (eq-cases level 1) [
        | inl p ↦ inl (p, ground (arith, e, f, one, nothing, p))
        | inr ne ↦ inr (info, f, ground (arith, e, f, one, nothing, ne))
      ]
    ]

-- Where the entries begin with level 1 for no experience and go up in both, a level of the registry is
-- reached exactly with the experience that GetExpRequiredForLevel names for it.
pub get_level_for_exp_iff :
    (total level exp : ℕ) (infos : List CharacterLevelInfo)
    → AreLevels infos
    → get_exp_required_for_level level infos ≡ some exp
    → (level ≤ get_level_for_exp total infos) ↔ (exp ≤ total)
get_level_for_exp_iff total level exp [] a e = elim a [ ]
get_level_for_exp_iff total level exp (first ∷ infos) (one, nothing, a) e =
    rw (reached_first total first infos one nothing)
      (elim (required_first level exp first infos one nothing e) [
        | inl (p, q) ↦ ground (arith, p, q, level_from_above total 1 0 infos a)
        | inr (info, f, q) ↦ ground (arith, q, level_from_iff total 1 0 level infos info a f)
      ])
