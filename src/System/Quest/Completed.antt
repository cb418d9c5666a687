-- ===== src/System/Quest/Completed.antt =====
-- The quests that src/server/system/QuestSystem.cpp tells a client are completed.
use alicia_server.Common.{
  ℕ, ◌+◌, ◌≡◌, ◌≢◌, inl, inr, refl, arith, List, [], ◌∷◌, ◌++◌, some, ◌==◌, if◌then◌else◌, is_some,
  Bool-cases, Option-cases,
}
use alicia_server.Common.Map.{Map, lookup}
use alicia_server.System.Quest.{
  Quest, DailyQuestEntry, DailyQuestGroup, Notify, QuestData, Event, invalid_uid, is_for, step,
  notice, open_quest, advanced_by, advance, advance_all,
}
use alicia_server.System.Quest.Progress.{happen, advance_by, happen-slots}

-- the notices that tell a character of a quest that it is completed
unfoldable pub completions : (character_uid quest_id : ℕ) → List Notify → ℕ
completions character_uid quest_id [] = 0
completions character_uid quest_id (n ∷ ns) =
    let rest = completions character_uid quest_id ns in
    if n.is_completed
    then (if n.quest_id == quest_id
        then (if n.character_uid == character_uid then rest + 1 else rest)
        else rest)
    else rest

-- one for a slot of a quest that is still to be satisfied
unfoldable pub is_left : (quest_id : ℕ) → Map Quest → DailyQuestEntry → ℕ
is_left quest_id registry entry =
    if entry.quest_id == quest_id then (if is_some (open_quest registry entry) then 1 else 0) else 0

-- the slots of a quest that are still to be satisfied
unfoldable pub open_slots : (quest_id : ℕ) → Map Quest → List DailyQuestEntry → ℕ
open_slots quest_id registry [] = 0
open_slots quest_id registry (entry ∷ entries) =
    is_left quest_id registry entry + open_slots quest_id registry entries

completions-append :
    (character_uid quest_id : ℕ) (ms ns : List Notify)
    → completions character_uid quest_id (ms ++ ns)
      ≡ completions character_uid quest_id ms + completions character_uid quest_id ns
unfolding completions
completions-append character_uid quest_id [] ns = omega arith
completions-append character_uid quest_id (m ∷ ms) ns =
    ground (arith, completions-append character_uid quest_id ms ns)

-- A slot is told to be completed just when it is satisfied by the event.
advance_counts :
    (quest_id character_uid group_reward : ℕ) (registry : Map Quest) (e : Event)
    (entry : DailyQuestEntry)
    → let done = advance character_uid group_reward registry e entry in
      completions character_uid quest_id done.1 + is_left quest_id registry done.0
      ≡ is_left quest_id registry entry
unfolding is_left advance advanced_by open_quest step notice completions
advance_counts quest_id character_uid group_reward registry e entry =
    elim (Option-cases (lookup entry.quest_id registry)) [
      | inl n ↦ ground (arith, n)
      | inr (quest, s) ↦ ground (arith, s, Bool-cases (is_for e quest))
    ]

all_advance_counts :
    (quest_id character_uid group_reward : ℕ) (registry : Map Quest) (e : Event)
    (entries : List DailyQuestEntry)
    → let done = advance_all character_uid group_reward registry e entries in
      completions character_uid quest_id done.1 + open_slots quest_id registry done.0
      ≡ open_slots quest_id registry entries
unfolding advance_all open_slots completions
all_advance_counts quest_id character_uid group_reward registry e [] = refl
all_advance_counts quest_id character_uid group_reward registry e (entry ∷ entries) = ground (
  arith,
  completions-append character_uid quest_id (advance character_uid group_reward registry e entry).1
      (advance_all character_uid group_reward registry e entries).1,
  advance_counts quest_id character_uid group_reward registry e entry,
  all_advance_counts quest_id character_uid group_reward registry e entries,
)

slots_counts :
    (quest_id character_uid group_reward : ℕ) (registry : Map Quest) (es : List Event)
    (entries : List DailyQuestEntry)
    → let done = advance_by character_uid group_reward registry es entries in
      completions character_uid quest_id done.1 + open_slots quest_id registry done.0
      ≡ open_slots quest_id registry entries
unfolding advance_by completions
slots_counts quest_id character_uid group_reward registry [] entries = omega arith
slots_counts quest_id character_uid group_reward registry (e ∷ es) entries =
    let now = advance_all character_uid group_reward registry e entries in
    omega (
      arith,
      completions-append character_uid quest_id now.1
          (advance_by character_uid group_reward registry es now.0).1,
      all_advance_counts quest_id character_uid group_reward registry e entries,
      slots_counts quest_id character_uid group_reward registry es now.0,
    )

-- Of the events of a character with a daily quest group, as many notices tell the character of a
-- quest that it is completed as there are slots of that quest that the events satisfy: a quest that has
-- one slot is told to be completed once at most, and no slot is satisfied without its notice.
pub happen-completions :
    (registry : Map Quest) (character_uid group_uid : ℕ) (group : DailyQuestGroup) (es : List Event)
    (held : QuestData)
    → lookup character_uid held.characters ≡ some group_uid
    → group_uid ≢ invalid_uid
    → lookup group_uid held.groups ≡ some group
    → let done = happen registry character_uid es held in
      (left : DailyQuestGroup) × (lookup group_uid done.0.groups ≡ some left)
      × ((quest_id : ℕ)
          → completions character_uid quest_id done.1 + open_slots quest_id registry left.quests
            ≡ open_slots quest_id registry group.quests)
happen-completions registry character_uid group_uid group es held c valid g =
    let slots = advance_by character_uid group.reward_type registry es group.quests in
    let acted = happen-slots registry character_uid group_uid group es held c valid g in
    (
      record group { quests = slots.0 },
      acted.0,
      λ quest_id.
          rw (acted.1)
            (slots_counts quest_id character_uid group.reward_type registry es group.quests),
    )
