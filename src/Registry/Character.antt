-- ===== src/Registry/Character.antt =====
-- CharacterRegistry of src/libserver/registry/CharacterRegistry.cpp: the levels of a character. The
-- registry is its list of level entries, which ReadConfig sorts by level.
pub mod Levels
use alicia_server.Common.{ℕ, List, [], ◌∷◌, Option, none, some, ltb, ◌==◌, if◌then◌else◌}

pub record CharacterLevelInfo : Type 0 where
  pub level : ℕ
  pub exp_required : ℕ

-- CharacterRegistry::GetLevelInfo
unfoldable pub get_level_info : ℕ → List CharacterLevelInfo → Option CharacterLevelInfo
get_level_info level [] = none
get_level_info level (info ∷ infos) =
    let rest = get_level_info level infos in if info.level == level then some info else rest

-- the loop of GetLevelForExp, with the level reached so far
unfoldable pub level_from : ℕ → ℕ → List CharacterLevelInfo → ℕ
level_from total_exp current [] = current
level_from total_exp current (info ∷ infos) =
    let rest = level_from total_exp info.level infos in
    if ltb total_exp info.exp_required then current else rest

-- CharacterRegistry::GetLevelForExp
unfoldable pub get_level_for_exp : ℕ → List CharacterLevelInfo → ℕ
get_level_for_exp total_exp infos = level_from total_exp 1 infos

-- CharacterRegistry::GetExpRequiredForLevel
unfoldable pub get_exp_required_for_level : ℕ → List CharacterLevelInfo → Option ℕ
get_exp_required_for_level level infos = elim (get_level_info level infos) [
  | none ↦ none
  | some info ↦ some info.exp_required
]
