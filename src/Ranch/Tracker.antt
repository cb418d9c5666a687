-- ===== src/Ranch/Tracker.antt =====
-- RanchTracker of src/server/tracker/RanchTracker.cpp and include/server/tracker/RanchTracker.hpp:
-- the object ids of the characters and horses of a ranch. Ids are 16 bits wide and wrap.
pub mod Oids
use alicia_server.Common.{ℕ, ◌+◌, ◌%◌, ◌^◌, Option, none, some, []}
use alicia_server.Common.Map.{Map, lookup, insert, erase}

abbrev pub invalid_entity_oid : ℕ
invalid_entity_oid = 0

pub record RanchTracker : Type 0 where
  pub next_object_id : ℕ
  pub characters : Map ℕ
  pub horses : Map ℕ

abbrev pub new_ranch_tracker : RanchTracker
new_ranch_tracker = record { next_object_id = 1; characters = []; horses = [] }

abbrev following : ℕ → ℕ
following oid = (oid + 1) % 2 ^ 16

-- RanchTracker::AddCharacter
unfoldable pub add_character : ℕ → RanchTracker → ℕ × RanchTracker
add_character uid t = elim (lookup uid t.characters) [
  | some oid ↦ (oid, t)
  | none ↦ (
    t.next_object_id,
    record t {
      characters = insert uid t.next_object_id t.characters;
      next_object_id = following t.next_object_id;
    },
  )
]

-- RanchTracker::RemoveCharacter
unfoldable pub remove_character : ℕ → RanchTracker → RanchTracker
remove_character uid t = record t { characters = erase uid t.characters }

-- RanchTracker::GetCharacterOid
unfoldable pub get_character_oid : ℕ → RanchTracker → ℕ
get_character_oid uid t = elim (lookup uid t.characters) [
  | none ↦ invalid_entity_oid
  | some oid ↦ oid
]

-- RanchTracker::AddHorse
unfoldable pub add_horse : ℕ → RanchTracker → ℕ × RanchTracker
add_horse uid t = elim (lookup uid t.horses) [
  | some oid ↦ (oid, t)
  | none ↦ (
    t.next_object_id,
    record t {
      horses = insert uid t.next_object_id t.horses;
      next_object_id = following t.next_object_id;
    },
  )
]

-- RanchTracker::RemoveHorse
unfoldable pub remove_horse : ℕ → RanchTracker → RanchTracker
remove_horse uid t = record t { horses = erase uid t.horses }

-- RanchTracker::GetHorseOid
unfoldable pub get_horse_oid : ℕ → RanchTracker → ℕ
get_horse_oid uid t = elim (lookup uid t.horses) [ none ↦ invalid_entity_oid | some oid ↦ oid ]
