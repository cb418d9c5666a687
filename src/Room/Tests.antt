-- ===== src/Room/Tests.antt =====
-- Rooms at concrete inputs.
use alicia_server.Common.{◌≡◌, ◌≤◌, ◌+◌, refl, arith, true, false, List, [], ◌∷◌, some}
use alicia_server.Common.Map.{contains, lookup, size}
use alicia_server.Common.Outcome.{Outcome, returned}
use alicia_server.Room.{
  Room, Details, Player, red, blue, TeamMode, default_details, new_room, add_player, count_team,
}
use alicia_server.Room.Capacity.{Op, queue, enter}
use alicia_server.Room.Teams.{add_player-balance}
use alicia_server.Room.System.{empty, create_room}
use alicia_server.Room.System.Fresh.{create_room-new}

abbrev team_details : Details
team_details = record default_details {
  max_player_count = 2;
  team_mode = TeamMode.team;
  master_uid = 4;
}

abbrev red_master : Player
red_master = record { is_ready = false; team = red; client_id = 40 }

-- A team room of two with its master in the red team, and player 5 on the way.
abbrev team_room : Room
team_room = record (new_room 1) {
  details = team_details;
  players = (4, red_master) ∷ [];
  queued = (5, tt) ∷ [];
}

-- Player 4 was queued and has entered, and player 5 is queued; the room has two places.
abbrev joined : List Op
joined = queue 4 ∷ enter true 40 4 ∷ queue 5 ∷ []

abbrev pair_room : Room
pair_room = record (new_room 1) { details = team_details }

add_player-balance_example :
    count_team red (add_player true 50 5 team_room).1.players
    ≤ count_team blue (add_player true 50 5 team_room).1.players + 1
unfolding add_player count_team size contains
add_player-balance_example =
    (add_player-balance true 50 5 1 team_room refl (omega arith) (omega arith) (omega arith) refl).0

-- The master opens the room for two players.
abbrev open_room : Room → Outcome (Unit {0}) × Room
open_room r = (returned tt, record r { details = team_details })

create_room-new_example :
    lookup 1 (create_room open_room empty).1.rooms ≡ some (open_room (new_room 1)).1
unfolding contains
create_room-new_example = (create_room-new open_room empty (λ uid lt. refl) (omega arith)).2
