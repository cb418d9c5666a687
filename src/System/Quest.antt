-- ===== src/System/Quest.antt =====
-- QuestSystem of src/server/system/QuestSystem.cpp.
--
-- The characters and the daily quest groups that the data director gives are maps by uid, the quests
-- of the registry a map by template. The functions of a quest that no event speaks of are told apart
-- like the rest. A group has three slots in the source, here a list of any length.
pub mod Suited
pub mod Progress
pub mod Completed
mod Tests
use alicia_server.Common.{
  ℕ, ◌+◌, min, List, [], ◌∷◌, ◌++◌, Bool, true, false, Option, none, some, leb, ◌==◌, if◌then◌else◌,
}
use alicia_server.Common.Map.{Map, lookup, insert}

-- registry::Quest::GameModeFlag by value
abbrev pub GameModeFlag : Type 0
GameModeFlag = ℕ

-- the enumerators of GameModeFlag that the system names
abbrev pub flag_none : GameModeFlag
flag_none = 0

abbrev pub flag_any : GameModeFlag
flag_any = 111

-- the enumerators of GameModeFlag that stand for the modes of a race
abbrev pub speed_team : GameModeFlag
speed_team = 2

abbrev pub magic_team : GameModeFlag
magic_team = 8

abbrev pub speed_solo_action : GameModeFlag
speed_solo_action = 35

abbrev pub magic_solo_action : GameModeFlag
magic_solo_action = 76

-- registry::Quest::Function
pub data Function : Type 0 where
  unknown always run_map team_win perfect_jump fireball_attack collect_drop_item : Function
  gliding_distance_value clear_mission prize_winner_for_low_level : Function
  prize_winner_in_map_for_low_level : Function

-- QuestSystem::QuestEvent
pub data QuestEvent : Type 0 where
  any prize_winner perfect_jump fireball_attack run_map team_win : QuestEvent
  gliding_distance collect_drop_item : QuestEvent

-- protocol::GameMode
pub data GameMode : Type 0 where
  speed magic unk4 tutorial : GameMode

-- protocol::TeamMode
pub data TeamMode : Type 0 where
  ffa team single : TeamMode

-- the fields of registry::Quest that the system reads
pub record Quest : Type 0 where
  pub success_value : ℕ
  pub game_mode_flag : GameModeFlag
  pub function : Function
  pub function_value : ℕ
  pub reward_exp : ℕ
  pub reward_game_money : ℕ

-- data::DailyQuestEntry
pub record DailyQuestEntry : Type 0 where
  pub quest_id : ℕ
  pub progress : ℕ

-- the fields of data::DailyQuestGroup that the system uses
pub record DailyQuestGroup : Type 0 where
  pub reward_type : ℕ
  pub quests : List DailyQuestEntry

-- AcCmdRCUpdateDailyQuestNotify, the objective's progress spread out; a reward type by value
pub record Notify : Type 0 where
  pub character_uid : ℕ
  pub quest_id : ℕ
  pub is_completed : Bool
  pub progress : ℕ
  pub carrots_reward : ℕ
  pub reward_type : ℕ
  pub mount_exp : ℕ

-- the daily quest group of each character, and the groups
pub record QuestData : Type 0 where
  pub characters : Map ℕ
  pub groups : Map DailyQuestGroup

abbrev pub invalid_uid : ℕ
invalid_uid = 0

-- protocol::QuestRewardType
abbrev pub no_reward : ℕ
no_reward = 0

abbrev pub carrots : ℕ
carrots = 1

abbrev pub exp : ℕ
exp = 2

-- QuestSystem::IsModeMatch
unfoldable pub is_mode_match : (quest_flag event_mode : GameModeFlag) → Bool
is_mode_match quest_flag event_mode =
    if quest_flag == flag_none
    then true
    else if quest_flag == flag_any
    then true
    else quest_flag == event_mode

-- QuestSystem::ToGameModeFlag
unfoldable pub to_game_mode_flag : GameMode → TeamMode → GameModeFlag
to_game_mode_flag GameMode.speed TeamMode.team = speed_team
to_game_mode_flag GameMode.speed TeamMode.ffa = speed_solo_action
to_game_mode_flag GameMode.speed TeamMode.single = speed_solo_action
to_game_mode_flag GameMode.magic TeamMode.team = magic_team
to_game_mode_flag GameMode.magic TeamMode.ffa = magic_solo_action
to_game_mode_flag GameMode.magic TeamMode.single = magic_solo_action
to_game_mode_flag GameMode.unk4 team_mode = flag_none
to_game_mode_flag GameMode.tutorial team_mode = flag_none

-- QuestSystem::IsEventMatch
unfoldable pub is_event_match : Function → QuestEvent → (quest_value event_value : ℕ) → Bool
is_event_match Function.always QuestEvent.any quest_value event_value = true
is_event_match Function.prize_winner_for_low_level QuestEvent.prize_winner quest_value event_value =
    true
is_event_match Function.prize_winner_in_map_for_low_level QuestEvent.prize_winner quest_value
      event_value =
    true
is_event_match Function.perfect_jump QuestEvent.perfect_jump quest_value event_value = true
is_event_match Function.fireball_attack QuestEvent.fireball_attack quest_value event_value = true
is_event_match Function.run_map QuestEvent.run_map quest_value event_value =
    quest_value == event_value
is_event_match Function.team_win QuestEvent.team_win quest_value event_value = true
is_event_match Function.gliding_distance_value QuestEvent.gliding_distance quest_value event_value =
    true
is_event_match Function.collect_drop_item QuestEvent.collect_drop_item quest_value event_value =
    true
is_event_match function event quest_value event_value = false

-- an event of a race with the arguments of OnQuestEvent
pub record Event : Type 0 where
  pub event : QuestEvent
  pub game_mode : GameModeFlag
  pub value : ℕ

-- whether a quest is for an event
unfoldable pub is_for : Event → Quest → Bool
is_for e quest =
    if is_mode_match quest.game_mode_flag e.game_mode
    then is_event_match quest.function e.event quest.function_value e.value
    else false

-- the slot after an event that its quest is for
unfoldable pub step : Quest → DailyQuestEntry → DailyQuestEntry
step quest entry = record entry { progress = min (entry.progress + 1) quest.success_value }

-- what is told of a slot that has advanced
unfoldable pub notice : (character_uid group_reward : ℕ) → Quest → DailyQuestEntry → Notify
notice character_uid group_reward quest entry =
    let completed = leb quest.success_value entry.progress in
    let reward_type = if completed then group_reward else no_reward in
    record {
      character_uid = character_uid;
      quest_id = entry.quest_id;
      is_completed = completed;
      progress = entry.progress;
      carrots_reward = if reward_type == carrots then quest.reward_game_money else 0;
      reward_type = reward_type;
      mount_exp = if reward_type == exp then quest.reward_exp else 0;
    }

-- the quest of a slot that is still to be satisfied
unfoldable pub open_quest : Map Quest → DailyQuestEntry → Option Quest
open_quest registry entry =
    if entry.quest_id == 0 then none else elim (lookup entry.quest_id registry) [
      | none ↦ none
      | some quest ↦ if leb quest.success_value entry.progress then none else some quest
    ]

-- the quest of a slot that an event advances
unfoldable pub advanced_by : Map Quest → Event → DailyQuestEntry → Option Quest
advanced_by registry e entry = elim (open_quest registry entry) [
  | none ↦ none
  | some quest ↦ if is_for e quest then some quest else none
]

-- a slot after an event, with what is told of it
unfoldable pub advance :
    (character_uid group_reward : ℕ)
    → Map Quest
    → Event
    → DailyQuestEntry
    → DailyQuestEntry × List Notify
advance character_uid group_reward registry e entry = elim (advanced_by registry e entry) [
  | none ↦ (entry, [])
  | some quest ↦ (step quest entry, notice character_uid group_reward quest (step quest entry) ∷ [])
]

-- the loop over the slots
unfoldable pub advance_all :
    (character_uid group_reward : ℕ)
    → Map Quest
    → Event
    → List DailyQuestEntry
    → List DailyQuestEntry × List Notify
advance_all character_uid group_reward registry e [] = ([], [])
advance_all character_uid group_reward registry e (entry ∷ entries) =
    let (here, told) = advance character_uid group_reward registry e entry in
    let (rest, later) = advance_all character_uid group_reward registry e entries in
    (here ∷ rest, told ++ later)

-- QuestSystem::OnQuestEvent
unfoldable pub on_quest_event :
    Map Quest → (character_uid : ℕ) → Event → QuestData → QuestData × List Notify
on_quest_event registry character_uid e held = elim (lookup character_uid held.characters) [
  | none ↦ (held, [])
  | some group_uid ↦
      if group_uid == invalid_uid then (held, []) else elim (lookup group_uid held.groups) [
        | none ↦ (held, [])
        | some group ↦
            let (quests, told) =
              advance_all character_uid group.reward_type registry e group.quests in
            (
              record held {
                groups = insert group_uid (record group { quests = quests }) held.groups;
              },
              told,
            )
      ]
]
