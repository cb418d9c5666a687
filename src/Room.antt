-- ===== src/Room.antt =====
-- Room of src/server/room/Room.cpp and include/server/room/Room.hpp: the players of a room, and
-- those who were let in and are still on their way (`queued`).
--
-- An enumeration whose default value is no enumerator has `unset` for it. GetRoomDetails and GetPlayer
-- give out references; what a caller changes through them is an update of the record here.
pub mod Capacity
pub mod Teams
pub mod Start
pub mod System
mod Tests
use alicia_server.Common.{
  ℕ, suc, ◌+◌, List, [], ◌∷◌, Bool, true, false, not, ◌&&◌, Option, none, some, ltb, leb, ◌==◌,
  if◌then◌else◌, is_some,
}
use alicia_server.Common.Map.{Map, lookup, contains, insert, erase, size}
use alicia_server.Common.Outcome.{Outcome, returned, threw, runtime_error}

pub data Team : Type 0 where
  solo red blue : Team

pub data GameMode : Type 0 where
  unset speed magic guild tutorial : GameMode

pub data TeamMode : Type 0 where
  unset ffa team single : TeamMode

pub record Player : Type 0 where
  pub is_ready : Bool
  pub team : Team
  pub client_id : ℕ

pub record Details : Type 0 where
  pub name : List ℕ
  pub password : List ℕ
  pub mission_id : ℕ
  pub course_id : ℕ
  pub max_player_count : ℕ
  pub game_mode : GameMode
  pub team_mode : TeamMode
  pub npc_difficulty : ℕ
  pub skill_bracket : ℕ
  pub master_uid : ℕ

pub record Room : Type 0 where
  pub uid : ℕ
  pub details : Details
  pub queued : Map (Unit {0})
  pub players : Map Player
  pub is_playing : Bool

pub record Snapshot : Type 0 where
  pub uid : ℕ
  pub details : Details
  pub player_count : ℕ
  pub is_playing : Bool

pub data PreventStartReason : Type 0 where
  nothing not_all_players_ready team_imbalance : PreventStartReason

abbrev pub default_details : Details
default_details = record {
  name = [];
  password = [];
  mission_id = 0;
  course_id = 0;
  max_player_count = 0;
  game_mode = GameMode.unset;
  team_mode = TeamMode.unset;
  npc_difficulty = 0;
  skill_bracket = 0;
  master_uid = 0;
}

-- Room::Player::SetReady
abbrev pub set_ready : Bool → Player → Player
set_ready ready p = record p { is_ready = ready }

-- Room::Player::SetTeam
abbrev pub set_team : Team → Player → Player
set_team color p = record p { team = color }

-- Room::Room
abbrev pub new_room : ℕ → Room
new_room uid = record {
  uid = uid;
  details = default_details;
  queued = [];
  players = [];
  is_playing = false;
}

-- Room::Player::ToggleReady
unfoldable pub toggle_ready : Player → Bool × Player
toggle_ready p = (not p.is_ready, record p { is_ready = not p.is_ready })

-- Room::IsRoomFull
unfoldable pub is_room_full : Room → Bool
is_room_full r = leb r.details.max_player_count (size r.players + size r.queued)

-- Room::QueuePlayer
unfoldable pub queue_player : ℕ → Room → Bool × Room
unfolding is_room_full
queue_player uid r =
    if is_room_full r then (false, r) else (true, record r { queued = insert uid tt r.queued })

-- Room::DequeuePlayer
unfoldable pub dequeue_player : ℕ → Room → Bool × Room
dequeue_player uid r = (contains uid r.queued, record r { queued = erase uid r.queued })

-- the loop that counts the players of a team
abbrev pub in_team : Team → Player → ℕ
in_team solo p = elim p.team [ Team.solo ↦ 1 | _ ↦ 0 ]
in_team red p = elim p.team [ Team.red ↦ 1 | _ ↦ 0 ]
in_team blue p = elim p.team [ Team.blue ↦ 1 | _ ↦ 0 ]

unfoldable pub count_team : Team → Map Player → ℕ
count_team t [] = 0
count_team t ((uid, p) ∷ players) = in_team t p + count_team t players

abbrev pub is_team_mode : TeamMode → Bool
is_team_mode TeamMode.team = true
is_team_mode _ = false

-- The team that AddPlayer gives a new player; `coin` is `std::rand() % 2 == 0`.
unfoldable pub choose_team : Bool → Room → Team
choose_team coin r =
    let red_team_count = count_team red r.players in
    let blue_team_count = count_team blue r.players in
    if is_team_mode r.details.team_mode
    then (if ltb blue_team_count red_team_count
        then blue
        else if ltb red_team_count blue_team_count
        then red
        else if coin
        then red
        else blue)
    else solo

-- Room::AddPlayer: what it returns or throws, and the room that it leaves.
unfoldable pub add_player : Bool → ℕ → ℕ → Room → Outcome Bool × Room
unfolding choose_team
add_player coin client_id uid r =
    if leb r.details.max_player_count (size r.players)
    then (returned false, r)
    else (let player : Player = record {
      is_ready = false;
      team = choose_team coin r;
      client_id = client_id;
    } in
        let dequeued : Room = record r { queued = erase uid r.queued } in
        if contains uid r.players
        then (threw runtime_error, dequeued)
        else (returned true, record dequeued { players = insert uid player r.players }))

-- Room::RemovePlayer
unfoldable pub remove_player : ℕ → Room → Room
remove_player uid r = record r { players = erase uid r.players }

-- Room::GetPlayer
unfoldable pub get_player : ℕ → Room → Outcome Player
get_player uid r = elim (lookup uid r.players) [ none ↦ threw runtime_error | some p ↦ returned p ]

-- Room::HasPlayer
unfoldable pub has_player : ℕ → Room → Bool
has_player uid r = contains uid r.players

-- The loop of Room::CanRoomStart with its two counters; the part behind it is `imbalance`.
abbrev pub imbalance : TeamMode → ℕ → ℕ → PreventStartReason
imbalance mode red_count blue_count =
    if is_team_mode mode && not (red_count == blue_count) then team_imbalance else nothing

unfoldable pub check_players : Details → ℕ → ℕ → Map Player → PreventStartReason
check_players details red_count blue_count [] = imbalance details.team_mode red_count blue_count
check_players details red_count blue_count ((uid, p) ∷ players) =
    let rest =
      check_players details (red_count + in_team red p) (blue_count + in_team blue p) players in
    if not (uid == details.master_uid) && not p.is_ready then not_all_players_ready else rest

-- Room::CanRoomStart
unfoldable pub can_room_start : Room → PreventStartReason
unfolding check_players
can_room_start r = check_players r.details 0 0 r.players

-- Room::SetRoomPlaying
abbrev pub set_room_playing : Bool → Room → Room
set_room_playing state r = record r { is_playing = state }

-- Room::GetRoomSnapshot
abbrev pub get_room_snapshot : Room → Snapshot
get_room_snapshot r = record {
  uid = r.uid;
  details = r.details;
  player_count = size r.players;
  is_playing = r.is_playing;
}
