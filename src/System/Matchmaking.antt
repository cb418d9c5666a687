-- ===== src/System/Matchmaking.antt =====
-- MatchmakingSystem of src/server/system/MatchmakingSystem.cpp and
-- include/server/system/MatchmakingSystem.hpp: characters that wait for a room.
--
-- A protocol mode is the number on the wire. Times are nanoseconds. The job that Search queues is
-- the function `search_job` with the time it runs at; what the job asks of its surroundings is a value
-- it returns: a result for the lobby, or that it wants to be queued again a second later.
pub mod Selection
pub mod Waiting
use alicia_server.Common.{
  ℕ, ◌+◌, ◌-◌, ◌*◌, ◌^◌, Bool, true, false, not, ◌&&◌, ◌||◌, Option, none, some, List, [], ◌∷◌, ltb,
  leb, ◌==◌, if◌then◌else◌, is_some,
}
use alicia_server.Common.Map.{Map, lookup, contains, insert, erase}
use alicia_server.Room.{GameMode, TeamMode, Details, Snapshot}

pub record Entry : Type 0 where
  pub queued_at : ℕ
  pub game_mode : ℕ
  pub team_mode : ℕ

pub data Verdict : Type 0 where
  no_room make_room found_room : Verdict

pub record MatchmakeResult : Type 0 where
  pub verdict : Verdict
  pub room_uid : ℕ

abbrev pub invalid_uid : ℕ
invalid_uid = 0

-- MatchmakingIntervalMs and MatchmakingQueueTimeoutMs
abbrev pub matchmaking_interval : ℕ
matchmaking_interval = 1000 * 10 ^ 6

abbrev pub matchmaking_queue_timeout : ℕ
matchmaking_queue_timeout = 30000 * 10 ^ 6

-- ResolveRoomGameMode
abbrev pub resolve_room_game_mode : ℕ → Option GameMode
resolve_room_game_mode mode =
    if mode == 1
    then some GameMode.speed
    else if mode == 2
    then some GameMode.magic
    else if mode == 6
    then some GameMode.tutorial
    else none

-- ResolveRoomTeamMode
abbrev pub resolve_room_team_mode : ℕ → Option TeamMode
resolve_room_team_mode mode =
    if mode == 1
    then some TeamMode.ffa
    else if mode == 2
    then some TeamMode.team
    else if mode == 3
    then some TeamMode.single
    else none

-- the numbers of the enumerators, where the mode that no enumerator names is 0
abbrev pub game_mode_number : GameMode → ℕ
game_mode_number GameMode.unset = 0
game_mode_number GameMode.speed = 1
game_mode_number GameMode.magic = 2
game_mode_number GameMode.guild = 3
game_mode_number GameMode.tutorial = 6

abbrev pub team_mode_number : TeamMode → ℕ
team_mode_number TeamMode.unset = 0
team_mode_number TeamMode.ffa = 1
team_mode_number TeamMode.team = 2
team_mode_number TeamMode.single = 3

-- the comparisons of a mode with an optional one
abbrev pub is_game_mode : GameMode → Option GameMode → Bool
is_game_mode mode none = false
is_game_mode mode (some other) = game_mode_number mode == game_mode_number other

abbrev pub is_team_mode : TeamMode → Option TeamMode → Bool
is_team_mode mode none = false
is_team_mode mode (some other) = team_mode_number mode == team_mode_number other

abbrev pub is_empty : List ℕ → Bool
is_empty [] = true
is_empty (c ∷ cs) = false

-- The guards of the loop of Matchmake: a room that has none of its `continue`s.
unfoldable pub is_eligible : Entry → Snapshot → Bool
is_eligible entry room =
    is_empty room.details.password
    && not room.is_playing
    && is_game_mode room.details.game_mode (resolve_room_game_mode entry.game_mode)
    && is_team_mode room.details.team_mode (resolve_room_team_mode entry.team_mode)
    && ltb room.player_count room.details.max_player_count

-- The loop of Matchmake with the room selected so far and its number of players.
unfoldable pub select_room : Entry → (selected_uid selected_player_count : ℕ) → List Snapshot → ℕ
select_room entry selected count [] = selected
select_room entry selected count (room ∷ rooms) =
    let is_best_candidate = selected == invalid_uid || ltb count room.player_count in
    let keep = select_room entry selected count rooms in
    let take = select_room entry room.uid room.player_count rooms in
    if is_eligible entry room && is_best_candidate then take else keep

-- MatchmakingSystem::Matchmake over the rooms' snapshots
unfoldable pub matchmake : Entry → List Snapshot → Option ℕ
matchmake entry rooms =
    let selected = select_room entry invalid_uid 0 rooms in
    if selected == invalid_uid then none else some selected

-- the matchmaking queue
abbrev pub MatchmakingQueue : Type 0
MatchmakingQueue = Map Entry

-- what a search job asks for
pub data Answer : Type 0 where
  dropped : Answer
  notify : MatchmakeResult → Answer
  search_again : (run_at : ℕ) → Answer

-- the job of MatchmakingSystem::Search
unfoldable pub search_job :
    (now character_uid : ℕ) → List Snapshot → MatchmakingQueue → Answer × MatchmakingQueue
search_job now uid rooms queue = elim (lookup uid queue) [
  | none ↦ (dropped, queue)
  | some entry ↦
      (if leb matchmaking_queue_timeout (now - entry.queued_at)
        then (notify (record { verdict = no_room; room_uid = invalid_uid }), erase uid queue)
        else elim (matchmake entry rooms) [
          | some room ↦ (notify (record { verdict = found_room; room_uid = room }), erase uid queue)
          | none ↦ (search_again (now + matchmaking_interval), queue)
        ])
]

-- MatchmakingSystem::Queue: whether the character was queued, and the time of its first search job.
unfoldable pub queue_character :
    (now character_uid game_mode team_mode : ℕ) → MatchmakingQueue → Option ℕ × MatchmakingQueue
queue_character now uid game_mode team_mode queue = if contains uid queue then (none, queue) else (
  some (now + matchmaking_interval),
  insert uid (record { queued_at = now; game_mode = game_mode; team_mode = team_mode }) queue,
)

-- MatchmakingSystem::Dequeue
unfoldable pub dequeue_character : ℕ → MatchmakingQueue → Bool × MatchmakingQueue
dequeue_character uid queue = (contains uid queue, erase uid queue)
