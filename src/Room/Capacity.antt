-- ===== src/Room/Capacity.antt =====
-- A room never holds more players than it may, and whoever was queued has a place.
use alicia_server.Common.{ℕ, ◌+◌, ◌≤◌, ◌≡◌, arith, ◌⊎◌, List, [], ◌∷◌, Bool, true, false}
use alicia_server.Common.Map.{
  IsDistinct, contains, size, size-insert, size-erase-le, insert-IsDistinct, erase-IsDistinct,
}
use alicia_server.Common.Outcome.{returned, threw, runtime_error}
use alicia_server.Room.{Room, queue_player, dequeue_player, add_player, remove_player, choose_team}

-- Players and queued players fit the room, and the keys of the two tables do not repeat.
pub record IsWithin (r : Room) : Type 0 where
  pub fits : size r.players + size r.queued ≤ r.details.max_player_count
  pub players_distinct : IsDistinct r.players
  pub queued_distinct : IsDistinct r.queued

pub queue_player-IsWithin : (uid : ℕ) (r : Room) → IsWithin r → IsWithin (queue_player uid r).1
unfolding queue_player
queue_player-IsWithin uid r w =
    ground (arith, size-insert uid tt r.queued, insert-IsDistinct uid tt r.queued w.queued_distinct)

pub dequeue_player-IsWithin : (uid : ℕ) (r : Room) → IsWithin r → IsWithin (dequeue_player uid r).1
unfolding dequeue_player
dequeue_player-IsWithin uid r w =
    ground (arith, size-erase-le uid r.queued, erase-IsDistinct uid r.queued w.queued_distinct)

pub remove_player-IsWithin : (uid : ℕ) (r : Room) → IsWithin r → IsWithin (remove_player uid r)
unfolding remove_player
remove_player-IsWithin uid r w =
    ground (arith, size-erase-le uid r.players, erase-IsDistinct uid r.players w.players_distinct)

-- What becomes of the players of a room.
pub data Op : Type 0 where
  queue dequeue remove : (uid : ℕ) → Op
  enter : (coin : Bool) → (client_id uid : ℕ) → Op

unfoldable pub step : Op → Room → Room
step (queue uid) r = (queue_player uid r).1
step (dequeue uid) r = (dequeue_player uid r).1
step (remove uid) r = remove_player uid r
step (enter coin client uid) r = (add_player coin client uid r).1

unfoldable pub happen : List Op → Room → Room
happen [] r = r
happen (op ∷ ops) r = happen ops (step op r)

-- Whoever enters is queued at that time.
abbrev pub Enters : Op → Room → Type 0
Enters (enter coin client uid) r = contains uid r.queued ≡ true
Enters op r = Unit {0}

abbrev pub AreQueued : List Op → Room → Type 0
AreQueued [] r = Unit {0}
AreQueued (op ∷ ops) r = Enters op r × AreQueued ops (step op r)

-- Whoever asks to be let in, the players never pass the limit, and the count goes up by one exactly
-- where AddPlayer answers yes; it refuses a full room and throws for one who is there already.
pub add_player-cases :
    (coin : Bool) (client uid : ℕ) (r : Room)
    → size r.players ≤ r.details.max_player_count
    → let s = add_player coin client uid r in
      (size s.1.players ≤ r.details.max_player_count)
      × (((s.0 ≡ returned false) × (s.1 ≡ r) × (size r.players ≡ r.details.max_player_count))
          ⊎ ((s.0 ≡ threw runtime_error)
              × (s.1.players ≡ r.players)
              × (contains uid r.players ≡ true))
          ⊎ ((s.0 ≡ returned true)
              × (size s.1.players ≡ size r.players + 1)
              × (contains uid r.players ≡ false)))
unfolding add_player
add_player-cases coin client uid r h = ground (
  arith,
  size-insert uid (record { is_ready = false; team = choose_team coin r; client_id = client })
      r.players,
)
