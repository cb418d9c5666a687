-- ===== src/Room/Start.antt =====
-- When a room may start its race.
use alicia_server.Common.{ℕ, ◌+◌, ◌≡◌, ◌⊎◌, inr, arith, true, false, ◌∷◌, [], ◌↔◌}
use alicia_server.Common.Map.{Map}
use alicia_server.Room.{
  Room, Player, Details, red, blue, in_team, count_team, is_team_mode, check_players,
  can_room_start, imbalance, nothing, not_all_players_ready,
}

-- Everyone but the master of the room is ready.
abbrev pub AllReady : ℕ → Map Player → Type 0
AllReady master [] = Unit {0}
AllReady master ((uid, p) ∷ players) =
    ((uid ≡ master) ⊎ (p.is_ready ≡ true)) × AllReady master players

check_players_ready :
    (d : Details) (r b : ℕ) (m : Map Player)
    → AllReady d.master_uid m
    → check_players d r b m ≡ imbalance d.team_mode (r + count_team red m) (b + count_team blue m)
unfolding check_players count_team
check_players_ready d r b [] h = ground arith
check_players_ready d r b ((uid, p) ∷ m) h =
    ground (arith, check_players_ready d (r + in_team red p) (b + in_team blue p) m h.1)

check_players_waits :
    (d : Details) (r b : ℕ) (m : Map Player)
    → (check_players d r b m ≡ not_all_players_ready) ⊎ AllReady d.master_uid m
unfolding check_players
check_players_waits d r b [] = inr tt
check_players_waits d r b ((uid, p) ∷ m) =
    ground (arith, check_players_waits d (r + in_team red p) (b + in_team blue p) m)

-- The answer of CanRoomStart is one of three. Nothing prevents the start exactly when everyone but
-- the master is ready and, in a team room, the teams are of one size; a player who is not ready is
-- reported first, whatever the teams.
pub can_room_start_iff :
    (r : Room)
    → ((can_room_start r ≡ not_all_players_ready) ↔ (¬ AllReady r.details.master_uid r.players))
      × ((can_room_start r ≡ nothing) ↔ (
          AllReady r.details.master_uid r.players
          × ((is_team_mode r.details.team_mode ≡ false)
              ⊎ (count_team red r.players ≡ count_team blue r.players))))
unfolding can_room_start
can_room_start_iff r = ground (
  arith,
  check_players_ready r.details 0 0 r.players,
  check_players_waits r.details 0 0 r.players,
)
