-- ===== src/Race/Results/Tests.antt =====
-- The end of a race at concrete inputs.
use alicia_server.Common.{ℕ, ◌≡◌, ◌⊎◌, List, [], ◌∷◌, ◌++◌, true}
use alicia_server.Common.Map.{Map}
use alicia_server.Room.{has_player, new_room}
use alicia_server.Race.Tracker.{
  Racer, new_racer, solo, red, blue, racing, disconnected, invalid_course_time,
}
use alicia_server.Race.Instance.{team}
use alicia_server.Race.Results.{winning_team, choose_master, set_master, invalid_uid}
use alicia_server.Race.Results.Winner.{AreSlower, IsFastest, winning_team-IsFastest}
use alicia_server.Race.Results.Master.{AreGone, choose_master-cases}

-- The fastest racer left the race.
abbrev finishers : Map Racer
finishers =
    (7, record new_racer { team = red; state = racing; course_time = 61000 })
    ∷ (8, record new_racer { team = blue; state = disconnected; course_time = 60000 })
    ∷ []

winning_team-IsFastest_example :
    ((winning_team team finishers ≡ solo) × AreSlower invalid_course_time finishers)
    ⊎ IsFastest finishers (winning_team team finishers)
winning_team-IsFastest_example = winning_team-IsFastest finishers

choose_master-cases_example :
    (AreGone (7 ∷ 8 ∷ []) (new_room 1)
      × (choose_master (7 ∷ 8 ∷ []) (new_room 1) ≡ (invalid_uid, new_room 1)))
    ⊎ ((before : List ℕ) × (uid : ℕ) × (after : List ℕ) × (7 ∷ 8 ∷ [] ≡ before ++ uid ∷ after)
        × AreGone before (new_room 1)
        × (has_player uid (new_room 1) ≡ true)
        × (choose_master (7 ∷ 8 ∷ []) (new_room 1) ≡ (uid, set_master uid (new_room 1))))
choose_master-cases_example = choose_master-cases (7 ∷ 8 ∷ []) (new_room 1)
