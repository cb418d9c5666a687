-- ===== src/Room/System/Access.antt =====
-- Reaching and deleting rooms by their uid.
use alicia_server.Common.{
  ℕ, ◌≡◌, ◌≢◌, ◌⊎◌, inl, inr, arith, true, false, none, some, refl, Option-cases,
}
use alicia_server.Common.Map.{lookup, contains, erase, lookup-insert, lookup-erase}
use alicia_server.Common.Outcome.{returned, threw, runtime_error}
use alicia_server.Room.{Room}
use alicia_server.Room.System.{RoomSystem, Consumer, get_room, delete_room, room_exists}

-- GetRoom throws and changes nothing where the room does not exist; otherwise it answers what its
-- consumer does, and the next caller finds the room that the consumer left. No other room changes.
pub get_room_lem :
    (uid : ℕ) (consumer : Consumer) (s : RoomSystem)
    → let after = get_room uid consumer s in
      (((room_exists uid s ≡ false) × (after ≡ (threw runtime_error, s)))
        ⊎ ((r : Room) × (lookup uid s.rooms ≡ some r)
            × (after.0 ≡ (consumer r).0)
            × (lookup uid after.1.rooms ≡ some (consumer r).1)))
      × ((other : ℕ) → other ≢ uid → lookup other after.1.rooms ≡ lookup other s.rooms)
unfolding get_room room_exists contains
get_room_lem uid consumer s = elim (Option-cases (lookup uid s.rooms)) [
  | inl e ↦ rw (e, get_room) (inl (refl, refl), λ other ne. refl)
  | inr (r, e) ↦
      rw (e, get_room)
        (
          inr (r, refl, refl, ground (arith, lookup-insert uid uid (consumer r).1 s.rooms)),
          λ other ne. ground (arith, lookup-insert uid other (consumer r).1 s.rooms),
        )
]

missing :
    (uid : ℕ) (consumer : Consumer) (s : RoomSystem)
    → lookup uid s.rooms ≡ none
    → (get_room uid consumer s ≡ (threw runtime_error, s))
      × (delete_room uid s ≡ (threw runtime_error, s))
unfolding get_room delete_room
missing uid consumer s e = ground arith

deleted :
    (uid : ℕ) (s : RoomSystem)
    → room_exists uid s ≡ true
    → delete_room uid s ≡ (returned tt, record s { rooms = erase uid s.rooms })
unfolding delete_room room_exists contains
deleted uid s e = ground arith

-- After DeleteRoom a room is gone: reaching it and deleting it again throw and change nothing, and no
-- other room changes.
pub delete_room-gone :
    (uid : ℕ) (consumer : Consumer) (s : RoomSystem)
    → room_exists uid s ≡ true
    → let after = (delete_room uid s).1 in
      ((delete_room uid s).0 ≡ returned tt)
      × (room_exists uid after ≡ false)
      × (get_room uid consumer after ≡ (threw runtime_error, after))
      × (delete_room uid after ≡ (threw runtime_error, after))
      × ((other : ℕ) → other ≢ uid → lookup other after.rooms ≡ lookup other s.rooms)
unfolding room_exists contains
delete_room-gone uid consumer s h =
    let after : RoomSystem = record s { rooms = erase uid s.rooms } in
    let absent : lookup uid (erase uid s.rooms) ≡ none =
      ground (arith, lookup-erase uid uid s.rooms) in
    let gone = missing uid consumer after absent in
    rw (deleted uid s h) (
      refl,
      ground (arith, absent),
      gone.0,
      gone.1,
      λ other ne. ground (arith, lookup-erase uid other s.rooms),
    )
