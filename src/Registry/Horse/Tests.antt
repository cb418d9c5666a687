-- ===== src/Registry/Horse/Tests.antt =====
-- The classes of horses at concrete inputs.
use alicia_server.Common.{◌+◌, ◌%◌, ◌^◌, ◌≡◌, ◌≤◌, ◌<◌, ◌⊎◌, arith, max}
use alicia_server.Registry.Horse.{LevelUpPoints, Horse, max_class, apply_class_progress}
use alicia_server.Registry.Horse.Classes.{
  IsReached, points_for, apply_class_progress-cases, apply_class_progress-add,
}

abbrev level_up_points : LevelUpPoints
level_up_points = record { base = 6650; exp10 = 13300; exp20 = 19950 }

abbrev young : Horse
young = record {
  clazz = 1;
  clazz_progress = 0;
  growth_points = 0;
  potential_type = 0;
  potential_level = 0;
  potential_value = 0;
}

apply_class_progress-cases_example :
    ((max_class ≤ max young.clazz 1) × (apply_class_progress level_up_points young 20000 ≡ young))
    ⊎ ((max young.clazz 1 < max_class)
        × ((apply_class_progress level_up_points young 20000).clazz_progress
            ≡ (young.clazz_progress + 20000) % 2 ^ 32)
        × IsReached level_up_points
            (apply_class_progress level_up_points young 20000).clazz_progress
            (max young.clazz 1)
            (apply_class_progress level_up_points young 20000).clazz
        × ((apply_class_progress level_up_points young 20000).growth_points % 2 ^ 32
            ≡ (young.growth_points
                + points_for
                    (max young.clazz 1)
                    (apply_class_progress level_up_points young 20000).clazz)
              % 2 ^ 32))
apply_class_progress-cases_example = apply_class_progress-cases level_up_points young 20000

apply_class_progress-add_example :
    let split =
      apply_class_progress level_up_points
        (apply_class_progress level_up_points young 7000)
        13000 in
    let whole = apply_class_progress level_up_points young (7000 + 13000) in
    (split.clazz ≡ whole.clazz) × (split.growth_points ≡ whole.growth_points)
apply_class_progress-add_example =
    apply_class_progress-add level_up_points young 7000 13000 (omega arith)
