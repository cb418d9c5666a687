-- ===== src/System/Quest/Suited.antt =====
-- Which quests an event is for in src/server/system/QuestSystem.cpp.
use alicia_server.Common.{ℕ, ◌≡◌, ◌⊎◌, ◌↔◌, arith, true, Option, none, some}
use alicia_server.System.Quest.{
  Quest, Function, QuestEvent, Event, GameModeFlag, flag_none, flag_any, is_mode_match,
  is_event_match, is_for,
}

-- The event that counts for a function, as far as one does. A place among the first three counts for
-- the quests that ask for it on some map as for those that do not name one.
abbrev pub event_for : Function → Option QuestEvent
event_for Function.unknown = none
event_for Function.always = some QuestEvent.any
event_for Function.run_map = some QuestEvent.run_map
event_for Function.team_win = some QuestEvent.team_win
event_for Function.perfect_jump = some QuestEvent.perfect_jump
event_for Function.fireball_attack = some QuestEvent.fireball_attack
event_for Function.collect_drop_item = some QuestEvent.collect_drop_item
event_for Function.gliding_distance_value = some QuestEvent.gliding_distance
event_for Function.clear_mission = none
event_for Function.prize_winner_for_low_level = some QuestEvent.prize_winner
event_for Function.prize_winner_in_map_for_low_level = some QuestEvent.prize_winner

-- Only a race on a map looks at the values: the map has to be that of the quest.
abbrev pub OnMap : Function → (quest_value event_value : ℕ) → Type 0
OnMap Function.run_map quest_value event_value = quest_value ≡ event_value
OnMap f quest_value event_value = Unit {0}

abbrev pub Counts : Function → QuestEvent → (quest_value event_value : ℕ) → Type 0
Counts f event quest_value event_value =
    (event_for f ≡ some event) × OnMap f quest_value event_value

-- The quest asks for no mode, for any, or for that of the event; its flag is compared as a whole.
abbrev pub SuitsMode : (quest_flag event_mode : GameModeFlag) → Type 0
SuitsMode quest_flag event_mode =
    (quest_flag ≡ flag_none) ⊎ (quest_flag ≡ flag_any) ⊎ (quest_flag ≡ event_mode)

abbrev pub Suits : Event → Quest → Type 0
Suits e quest =
    SuitsMode quest.game_mode_flag e.game_mode
    × Counts quest.function e.event quest.function_value e.value

is_mode_match_iff :
    (quest_flag event_mode : GameModeFlag)
    → (is_mode_match quest_flag event_mode ≡ true) ↔ SuitsMode quest_flag event_mode
unfolding is_mode_match
is_mode_match_iff quest_flag event_mode = ground arith

is_event_match_iff :
    (f : Function) (event : QuestEvent) (quest_value event_value : ℕ)
    → (is_event_match f event quest_value event_value ≡ true)
      ↔ Counts f event quest_value event_value
unfolding is_event_match
is_event_match_iff Function.unknown event q v = ground arith
is_event_match_iff Function.always event q v = ground arith
is_event_match_iff Function.run_map event q v = ground arith
is_event_match_iff Function.team_win event q v = ground arith
is_event_match_iff Function.perfect_jump event q v = ground arith
is_event_match_iff Function.fireball_attack event q v = ground arith
is_event_match_iff Function.collect_drop_item event q v = ground arith
is_event_match_iff Function.gliding_distance_value event q v = ground arith
is_event_match_iff Function.clear_mission event q v = ground arith
is_event_match_iff Function.prize_winner_for_low_level event q v = ground arith
is_event_match_iff Function.prize_winner_in_map_for_low_level event q v = ground arith

-- An event is for a quest exactly when it suits it.
pub is_for_iff : (e : Event) (quest : Quest) → (is_for e quest ≡ true) ↔ Suits e quest
unfolding is_for
is_for_iff e quest =
    let mode = is_mode_match_iff quest.game_mode_flag e.game_mode in
    let kind = is_event_match_iff quest.function e.event quest.function_value e.value in
    ground (arith, mode.0, mode.1, kind.0, kind.1)
