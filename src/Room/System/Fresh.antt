-- ===== src/Room/System/Fresh.antt =====
-- A created room is a new one, as long as the 32-bit counter has not come round.
use alicia_server.Common.{ℕ, ◌+◌, ◌^◌, ◌<◌, ◌≡◌, arith, false, some, refl, inl, inr, Option-cases}
use alicia_server.Common.Map.{Map, lookup, contains, lookup-insert, lookup-erase, size-insert}
use alicia_server.Room.{Room, new_room}
use alicia_server.Room.System.{
  RoomSystem, Consumer, next_uid, emplaced, create_room, get_room, delete_room, get_room_count,
}

-- No room has a uid above the counter.
abbrev pub IsSequenced : RoomSystem → Type 0
IsSequenced s = (uid : ℕ) → s.sequenced_id < uid → contains uid s.rooms ≡ false

next_uid_lem : (s : RoomSystem) → s.sequenced_id + 1 < 2 ^ 32 → next_uid s ≡ s.sequenced_id + 1
unfolding next_uid
next_uid_lem s h = omega arith

emplaced_lem :
    (uid : ℕ) (rooms : Map Room) → contains uid rooms ≡ false → emplaced uid rooms ≡ new_room uid
unfolding emplaced contains
emplaced_lem uid rooms h = ground arith

-- Before the counter comes round, CreateRoom gives its consumer a room that is empty and new, under
-- the next uid, keeps every other room as it is, adds one to the count, and leaves no room above the
-- counter; where the consumer throws, the room that it left is there all the same.
pub create_room-new :
    (consumer : Consumer) (s : RoomSystem)
    → IsSequenced s
    → s.sequenced_id + 1 < 2 ^ 32
    → let uid = s.sequenced_id + 1 in
      let after = (create_room consumer s).1 in
      (contains uid s.rooms ≡ false)
      × ((create_room consumer s).0 ≡ (consumer (new_room uid)).0)
      × (lookup uid after.rooms ≡ some (consumer (new_room uid)).1)
      × ((other : ℕ) → other < uid → lookup other after.rooms ≡ lookup other s.rooms)
      × (get_room_count after ≡ get_room_count s + 1)
      × IsSequenced after
unfolding create_room get_room_count contains
create_room-new consumer s q h =
    let uid : ℕ = s.sequenced_id + 1 in
    let absent : contains uid s.rooms ≡ false = q uid (omega arith) in
    rw (next_uid_lem s h, emplaced_lem uid s.rooms absent)
      (
        absent,
        refl,
        ground (arith, lookup-insert uid uid (consumer (new_room uid)).1 s.rooms),
        λ other lt. ground (arith, lookup-insert uid other (consumer (new_room uid)).1 s.rooms),
        ground (arith, size-insert uid (consumer (new_room uid)).1 s.rooms),
        λ other lt.
            ground (arith, lookup-insert uid other (consumer (new_room uid)).1 s.rooms, q other),
      )

-- Reaching a room and deleting one keep every room at or below the counter.
pub get_room-IsSequenced :
    (uid : ℕ) (consumer : Consumer) (s : RoomSystem)
    → IsSequenced s
    → IsSequenced (get_room uid consumer s).1 × IsSequenced (delete_room uid s).1
unfolding get_room delete_room contains
get_room-IsSequenced uid consumer s q = elim (Option-cases (lookup uid s.rooms)) [
  | inl e ↦ rw (e, get_room, delete_room) (q, q)
  | inr (r, e) ↦
      rw (e, get_room, delete_room)
        (
          (λ other lt. ground (arith, lookup-insert uid other (consumer r).1 s.rooms, q other)),
          (λ other lt. ground (arith, lookup-erase uid other s.rooms, q other)),
        )
]
