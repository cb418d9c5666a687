-- ===== src/Room/System.antt =====
-- RoomSystem of src/server/system/RoomSystem.cpp and include/server/system/RoomSystem.hpp: the rooms
-- by their uid.
--
-- A consumer gets the room to change and may throw, which leaves what it has changed so far: it is
-- a function from a room to an outcome and the room that it leaves. The locks have no part of their own.
pub mod Fresh
pub mod Access
use alicia_server.Common.{ℕ, ◌+◌, ◌%◌, ◌^◌, Bool, Option, none, some, List, [], ◌∷◌}
use alicia_server.Common.Map.{Map, lookup, contains, insert, erase, size}
use alicia_server.Common.Outcome.{Outcome, returned, threw, runtime_error}
use alicia_server.Room.{Room, Snapshot, new_room, get_room_snapshot}

pub record RoomSystem : Type 0 where
  pub sequenced_id : ℕ
  pub rooms : Map Room

-- what a caller does with a room
abbrev pub Consumer : Type 0
Consumer = Room → Outcome (Unit {0}) × Room

abbrev pub empty : RoomSystem
empty = record { sequenced_id = 0; rooms = [] }

-- ++_sequencedId
unfoldable pub next_uid : RoomSystem → ℕ
next_uid s = (s.sequenced_id + 1) % 2 ^ 32

-- The room that try_emplace yields: the one that is there, or a new one.
unfoldable pub emplaced : ℕ → Map Room → Room
emplaced uid rooms = elim (lookup uid rooms) [ some r ↦ r | none ↦ new_room uid ]

-- RoomSystem::CreateRoom
unfoldable pub create_room : Consumer → RoomSystem → Outcome (Unit {0}) × RoomSystem
create_room consumer s =
    let uid = next_uid s in
    let result = consumer (emplaced uid s.rooms) in
    (result.0, record { sequenced_id = uid; rooms = insert uid result.1 s.rooms })

-- RoomSystem::GetRoom
unfoldable pub get_room : ℕ → Consumer → RoomSystem → Outcome (Unit {0}) × RoomSystem
get_room uid consumer s = elim (lookup uid s.rooms) [
  | none ↦ (threw runtime_error, s)
  | some r ↦ ((consumer r).0, record s { rooms = insert uid (consumer r).1 s.rooms })
]

-- RoomSystem::RoomExists
unfoldable pub room_exists : ℕ → RoomSystem → Bool
room_exists uid s = contains uid s.rooms

-- the loop of GetRoomsSnapshot
unfoldable pub snapshots : Map Room → List Snapshot
snapshots [] = []
snapshots ((uid, r) ∷ rooms) = get_room_snapshot r ∷ snapshots rooms

-- RoomSystem::GetRoomsSnapshot
unfoldable pub get_rooms_snapshot : RoomSystem → List Snapshot
get_rooms_snapshot s = snapshots s.rooms

-- RoomSystem::DeleteRoom
unfoldable pub delete_room : ℕ → RoomSystem → Outcome (Unit {0}) × RoomSystem
delete_room uid s = elim (lookup uid s.rooms) [
  | none ↦ (threw runtime_error, s)
  | some r ↦ (returned tt, record s { rooms = erase uid s.rooms })
]

-- RoomSystem::GetRoomCount
unfoldable pub get_room_count : RoomSystem → ℕ
get_room_count s = size s.rooms
