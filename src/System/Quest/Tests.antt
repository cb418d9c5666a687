-- ===== src/System/Quest/Tests.antt =====
-- The daily quests at concrete inputs.
use alicia_server.Common.{ℕ, ◌≡◌, ◌+◌, arith, refl, List, [], ◌∷◌, some}
use alicia_server.Common.Map.{Map, lookup}
use alicia_server.System.Quest.{
  Quest, Function, QuestEvent, GameMode, TeamMode, DailyQuestGroup, QuestData, Event,
  to_game_mode_flag, flag_none, speed_solo_action,
}
use alicia_server.System.Quest.Progress.{happen}
use alicia_server.System.Quest.Completed.{completions, open_slots, happen-completions}

-- A quest of two perfect jumps in speed races, and one of any race.
abbrev registry : Map Quest
registry =
    (
      11,
      record {
        success_value = 2;
        game_mode_flag = speed_solo_action;
        function = Function.perfect_jump;
        function_value = 0;
        reward_exp = 30;
        reward_game_money = 500;
      },
    )
    ∷ (
      12,
      record {
        success_value = 1;
        game_mode_flag = flag_none;
        function = Function.always;
        function_value = 0;
        reward_exp = 10;
        reward_game_money = 100;
      },
    )
    ∷ []

abbrev group : DailyQuestGroup
group = record {
  reward_type = 1;
  quests = record { quest_id = 11; progress = 0 } ∷ record { quest_id = 12; progress = 0 } ∷ [];
}

abbrev held : QuestData
held = record { characters = (3, 9) ∷ []; groups = (9, group) ∷ [] }

abbrev jump : Event
jump = record { event = QuestEvent.perfect_jump; game_mode = speed_solo_action; value = 0 }

abbrev finish : Event
finish = record { event = QuestEvent.any; game_mode = speed_solo_action; value = 0 }

speed_race_flag : to_game_mode_flag GameMode.speed TeamMode.single ≡ speed_solo_action
unfolding to_game_mode_flag
speed_race_flag = refl

-- Three jumps and a finish.
abbrev race_events : List Event
race_events = jump ∷ jump ∷ jump ∷ finish ∷ []

happen-completions_example :
    (left : DailyQuestGroup) × (lookup 9 (happen registry 3 race_events held).0.groups ≡ some left)
    × ((quest_id : ℕ)
        → completions 3 quest_id (happen registry 3 race_events held).1
            + open_slots quest_id registry left.quests
          ≡ open_slots quest_id registry group.quests)
unfolding lookup
happen-completions_example =
    happen-completions registry 3 9 group race_events held refl (λ e. omega arith) refl
