-- ===== src/System/Matchmaking/Selection.antt =====
-- The room that a waiting character is given.
use alicia_server.Common.{
  ℕ, ◌≤◌, ◌≡◌, ◌≢◌, ◌⊎◌, inl, inr, refl, ap, arith, true, false, ◌&&◌, ◌||◌, none, some, List, [],
  ◌∷◌, ltb, ◌==◌, Bool-cases, Among,
}
use alicia_server.Room.{Snapshot}
use alicia_server.System.Matchmaking.{Entry, invalid_uid, is_eligible, select_room, matchmake}

-- No eligible room of a list has more players than a number.
abbrev pub AreAtMost : Entry → ℕ → List Snapshot → Type 0
AreAtMost entry count [] = Unit {0}
AreAtMost entry count (room ∷ rooms) =
    (is_eligible entry room ≡ true → room.player_count ≤ count) × AreAtMost entry count rooms

-- A room of a list is eligible and no other eligible one has more players.
pub record IsFullest (entry : Entry) (room : Snapshot) (rooms : List Snapshot) : Type 0 where
  pub among : Among room rooms
  pub eligible : is_eligible entry room ≡ true
  pub fullest : AreAtMost entry room.player_count rooms

-- Every room has a valid uid.
abbrev pub AreValid : List Snapshot → Type 0
AreValid [] = Unit {0}
AreValid (room ∷ rooms) = (room.uid ≢ invalid_uid) × AreValid rooms

-- No room is eligible.
abbrev pub AreIneligible : Entry → List Snapshot → Type 0
AreIneligible entry [] = Unit {0}
AreIneligible entry (room ∷ rooms) = (is_eligible entry room ≡ false) × AreIneligible entry rooms

at_most_mono :
    (entry : Entry) (a b : ℕ) (rooms : List Snapshot)
    → a ≤ b
    → AreAtMost entry a rooms
    → AreAtMost entry b rooms
at_most_mono entry a b [] le h = tt
at_most_mono entry a b (room ∷ rooms) le h =
    ((λ e. ground (arith, h.0 e)), at_most_mono entry a b rooms le h.1)

-- What the loop answers once it has a room: that one, if no later one is fuller, or the fullest.
Kept : Entry → ℕ → ℕ → List Snapshot → ℕ → Type 0
Kept entry selected count rooms answer =
    ((answer ≡ selected) × AreAtMost entry count rooms)
    ⊎ ((room : Snapshot) × (answer ≡ room.uid)
        × (count ≤ room.player_count)
        × IsFullest entry room rooms)

wider :
    (entry : Entry) (room other : Snapshot) (rooms : List Snapshot)
    → IsFullest entry room rooms
    → (is_eligible entry other ≡ true → other.player_count ≤ room.player_count)
    → IsFullest entry room (other ∷ rooms)
wider entry room other rooms f le = record {
  among = inr f.among;
  eligible = f.eligible;
  fullest = (le, f.fullest);
}

taken :
    (entry : Entry) (room : Snapshot) (rooms : List Snapshot) (answer : ℕ)
    → is_eligible entry room ≡ true
    → Kept entry room.uid room.player_count rooms answer
    → (best : Snapshot) × (answer ≡ best.uid)
      × (room.player_count ≤ best.player_count)
      × IsFullest entry best (room ∷ rooms)
unfolding Kept
taken entry room rooms answer e (inl (same, most)) = (
  room,
  same,
  omega arith,
  record { among = inl refl; eligible = e; fullest = ((λ again. omega arith), most) },
)
taken entry room rooms answer e (inr (best, same, le, f)) =
    (best, same, le, wider entry best room rooms f (λ again. le))

Kept-on :
    (entry : Entry) (selected count : ℕ) (room : Snapshot) (rooms : List Snapshot) (answer : ℕ)
    → (is_eligible entry room ≡ true → room.player_count ≤ count)
    → Kept entry selected count rooms answer
    → Kept entry selected count (room ∷ rooms) answer
unfolding Kept
Kept-on entry selected count room rooms answer h (inl (same, most)) = inl (same, (h, most))
Kept-on entry selected count room rooms answer h (inr (best, same, le, f)) =
    inr (best, same, le, wider entry best room rooms f (λ e. omega (arith, h e, le)))

takes :
    (entry : Entry) (selected count : ℕ) (room : Snapshot) (rooms : List Snapshot)
    → is_eligible entry room ≡ true
    → (selected == invalid_uid || ltb count room.player_count) ≡ true
    → select_room entry selected count (room ∷ rooms)
      ≡ select_room entry room.uid room.player_count rooms
unfolding select_room
takes entry selected count room rooms e h = ground (arith, e, h)

keeps :
    (entry : Entry) (selected count : ℕ) (room : Snapshot) (rooms : List Snapshot)
    → (is_eligible entry room && (selected == invalid_uid || ltb count room.player_count)) ≡ false
    → select_room entry selected count (room ∷ rooms) ≡ select_room entry selected count rooms
unfolding select_room
keeps entry selected count room rooms h = ground (arith, h)

Kept-none : (entry : Entry) (selected count : ℕ) → Kept entry selected count [] selected
unfolding Kept
Kept-none entry selected count = inl (refl, tt)

Kept-some :
    (entry : Entry) (selected count : ℕ) (room : Snapshot) (rooms : List Snapshot)
    → IsFullest entry room rooms
    → count ≤ room.player_count
    → Kept entry selected count rooms room.uid
unfolding Kept
Kept-some entry selected count room rooms f le = inr (room, refl, le, f)

select_room_lem :
    (entry : Entry) (selected count : ℕ) (rooms : List Snapshot)
    → selected ≢ invalid_uid
    → AreValid rooms
    → Kept entry selected count rooms (select_room entry selected count rooms)
unfolding select_room
select_room_lem entry selected count [] ne v = Kept-none entry selected count
select_room_lem entry selected count (room ∷ rooms) ne v =
    let best_candidate =
      is_eligible entry room && (selected == invalid_uid || ltb count room.player_count) in
    elim (Bool-cases best_candidate) [
      | inr not_fit ↦ rw (keeps entry selected count room rooms not_fit) (
          Kept-on entry selected count room rooms (select_room entry selected count rooms)
            (λ e. ground (arith, e, not_fit, ne))
            (select_room_lem entry selected count rooms ne v.1))
      | inl fit ↦
          (let e : is_eligible entry room ≡ true = ground (arith, fit) in
            let (best, same, le, f) =
              taken entry room rooms (select_room entry room.uid room.player_count rooms) e
                (select_room_lem entry room.uid room.player_count rooms v.0 v.1) in
            rw (takes entry selected count room rooms e (ground (arith, fit)), same)
              (Kept-some entry selected count best (room ∷ rooms) f (ground (arith, fit, ne, le))))
    ]

-- What the loop answers from its start.
Found : Entry → List Snapshot → ℕ → Type 0
Found entry rooms answer =
    ((answer ≡ invalid_uid) × AreIneligible entry rooms)
    ⊎ ((room : Snapshot) × (answer ≡ room.uid) × IsFullest entry room rooms)

Found-on :
    (entry : Entry) (room : Snapshot) (rooms : List Snapshot) (answer : ℕ)
    → is_eligible entry room ≡ false
    → Found entry rooms answer
    → Found entry (room ∷ rooms) answer
unfolding Found
Found-on entry room rooms answer not_fit (inl (same, none_eligible)) =
    inl (same, (not_fit, none_eligible))
Found-on entry room rooms answer not_fit (inr (best, same, f)) =
    inr (best, same, wider entry best room rooms f (λ e. ground (arith, e, not_fit)))

Found-here :
    (entry : Entry) (room : Snapshot) (rooms : List Snapshot) (answer : ℕ)
    → is_eligible entry room ≡ true
    → Kept entry room.uid room.player_count rooms answer
    → Found entry (room ∷ rooms) answer
unfolding Found
Found-here entry room rooms answer e k =
    let (best, same, le, f) = taken entry room rooms answer e k in inr (best, same, f)

Found-none : (entry : Entry) → Found entry [] (select_room entry invalid_uid 0 [])
unfolding Found select_room
Found-none entry = inl (refl, tt)

select_first :
    (entry : Entry) (rooms : List Snapshot)
    → AreValid rooms
    → Found entry rooms (select_room entry invalid_uid 0 rooms)
select_first entry [] v = Found-none entry
select_first entry (room ∷ rooms) v = elim (Bool-cases (is_eligible entry room)) [
  | inl e ↦ rw (takes entry invalid_uid 0 room rooms e refl) (
      Found-here entry room rooms (select_room entry room.uid room.player_count rooms) e
        (select_room_lem entry room.uid room.player_count rooms v.0 v.1))
  | inr not_fit ↦ rw (keeps entry invalid_uid 0 room rooms (ground (arith, not_fit))) (
      Found-on entry room rooms (select_room entry invalid_uid 0 rooms) not_fit
        (select_first entry rooms v.1))
]

valid_uid :
    (room : Snapshot) (rooms : List Snapshot)
    → AreValid rooms
    → Among room rooms
    → room.uid ≢ invalid_uid
valid_uid room [] v absent = elim absent [ ]
valid_uid room (other ∷ rooms) v (inl same) = λ bad. v.0 (ground (arith, bad, ap (λ r. r.uid) same))
valid_uid room (other ∷ rooms) v (inr rest) = valid_uid room rooms v.1 rest

answered :
    (entry : Entry) (rooms : List Snapshot)
    → AreValid rooms
    → Found entry rooms (select_room entry invalid_uid 0 rooms)
    → ((matchmake entry rooms ≡ none) × AreIneligible entry rooms)
      ⊎ ((room : Snapshot) × (matchmake entry rooms ≡ some room.uid) × IsFullest entry room rooms)
unfolding matchmake Found
answered entry rooms v (inl (same, none_eligible)) = inl (ground (arith, same), none_eligible)
answered entry rooms v (inr (room, same, f)) =
    inr (room, ground (arith, same, valid_uid room rooms v f.among), f)

-- With valid uids: Matchmake finds no room exactly when none is eligible, and the room it finds is an
-- eligible one that no other eligible room outnumbers.
pub matchmake-IsFullest :
    (entry : Entry) (rooms : List Snapshot)
    → AreValid rooms
    → ((matchmake entry rooms ≡ none) × AreIneligible entry rooms)
      ⊎ ((room : Snapshot) × (matchmake entry rooms ≡ some room.uid) × IsFullest entry room rooms)
matchmake-IsFullest entry rooms v = answered entry rooms v (select_first entry rooms v)
