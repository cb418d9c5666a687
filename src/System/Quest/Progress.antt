-- ===== src/System/Quest/Progress.antt =====
-- How far the slots of src/server/system/QuestSystem.cpp get by the events of a character.
use alicia_server.Common.{
  ℕ, ◌+◌, ◌≡◌, ◌≢◌, refl, ap, arith, min, max, List, [], ◌∷◌, ◌++◌, none, some, ◌==◌, if◌then◌else◌,
}
use alicia_server.Common.Map.{Map, lookup, insert, lookup-insert}
use alicia_server.System.Quest.{
  Quest, DailyQuestEntry, DailyQuestGroup, Notify, QuestData, Event, invalid_uid, is_for,
  advance_all, on_quest_event,
}

-- events one after the other, with all that is told
unfoldable pub happen :
    Map Quest → (character_uid : ℕ) → List Event → QuestData → QuestData × List Notify
happen registry character_uid [] held = (held, [])
happen registry character_uid (e ∷ es) held =
    let (next, told) = on_quest_event registry character_uid e held in
    let (last, later) = happen registry character_uid es next in (last, told ++ later)

-- the same on the slots alone
unfoldable pub advance_by :
    (character_uid group_reward : ℕ)
    → Map Quest
    → List Event
    → List DailyQuestEntry
    → List DailyQuestEntry × List Notify
advance_by character_uid group_reward registry [] entries = (entries, [])
advance_by character_uid group_reward registry (e ∷ es) entries =
    let (next, told) = advance_all character_uid group_reward registry e entries in
    let (last, later) = advance_by character_uid group_reward registry es next in
    (last, told ++ later)

-- the events that a quest is for
unfoldable pub counted : Quest → List Event → ℕ
counted quest [] = 0
counted quest (e ∷ es) = let rest = counted quest es in if is_for e quest then rest + 1 else rest

-- A slot as the events leave it: a known quest is a step further for each event it is for, up to what
-- it takes, and one that is past that stays.
unfoldable pub reached : Map Quest → List Event → DailyQuestEntry → DailyQuestEntry
reached registry es entry =
    if entry.quest_id == 0 then entry else elim (lookup entry.quest_id registry) [
      | none ↦ entry
      | some quest ↦ record entry {
        progress = max entry.progress (min quest.success_value (entry.progress + counted quest es));
      }
    ]

on_quest_event_found :
    (registry : Map Quest) (character_uid group_uid : ℕ) (group : DailyQuestGroup) (e : Event)
    (held : QuestData)
    → lookup character_uid held.characters ≡ some group_uid
    → group_uid ≢ invalid_uid
    → lookup group_uid held.groups ≡ some group
    → let slots = advance_all character_uid group.reward_type registry e group.quests in
      on_quest_event registry character_uid e held ≡ (
        record held { groups = insert group_uid (record group { quests = slots.0 }) held.groups },
        slots.1,
      )
unfolding on_quest_event
on_quest_event_found registry character_uid group_uid group e held c valid g =
    ground (arith, c, valid, g)

lookup_inserted :
    (uid : ℕ) (group : DailyQuestGroup) (groups : Map DailyQuestGroup)
    → lookup uid (insert uid group groups) ≡ some group
lookup_inserted uid group groups = ground (arith, lookup-insert uid uid group groups)

-- The events of a character act on the slots of its group alone.
pub happen-slots :
    (registry : Map Quest) (character_uid group_uid : ℕ) (group : DailyQuestGroup) (es : List Event)
    (held : QuestData)
    → lookup character_uid held.characters ≡ some group_uid
    → group_uid ≢ invalid_uid
    → lookup group_uid held.groups ≡ some group
    → let slots = advance_by character_uid group.reward_type registry es group.quests in
      let done = happen registry character_uid es held in
      (lookup group_uid done.0.groups ≡ some (record group { quests = slots.0 }))
      × (done.1 ≡ slots.1)
unfolding happen advance_by
happen-slots registry character_uid group_uid group [] held c valid g = (g, refl)
happen-slots registry character_uid group_uid group (e ∷ es) held c valid g =
    let slots = advance_all character_uid group.reward_type registry e group.quests in
    let moved : DailyQuestGroup = record group { quests = slots.0 } in
    let next : QuestData = record held { groups = insert group_uid moved held.groups } in
    let rest =
      happen-slots registry character_uid group_uid moved es next c valid
        (lookup_inserted group_uid moved held.groups) in
    rw (on_quest_event_found registry character_uid group_uid group e held c valid g)
      (rest.0, ap (λ (later : List Notify). slots.1 ++ later) rest.1)
