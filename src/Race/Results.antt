-- ===== src/Race/Results.antt =====
-- What RaceInstance::Stop in src/server/race/RaceInstance.cpp decides at the end of a race: the winning
-- team, and the new master of the room. The scores are the uids of the racers, in the order of the
-- score board.
pub mod Winner
pub mod Master
mod Tests
use alicia_server.Common.{
  ℕ, List, [], ◌∷◌, Bool, true, false, not, ◌&&◌, Option, none, some, ltb, ◌==◌, if◌then◌else◌,
}
use alicia_server.Common.Map.{Map, size}
use alicia_server.Race.Tracker.{
  Racer, State, disconnected, loading, racing, finishing, Team, solo, invalid_course_time,
}
use alicia_server.Race.Instance.{TeamMode, team, ffa, single}
use alicia_server.Room.{Room, has_player}

-- data::InvalidUid
abbrev pub invalid_uid : ℕ
invalid_uid = 0

abbrev pub is_connected : State → Bool
is_connected disconnected = false
is_connected loading = true
is_connected racing = true
is_connected finishing = true

-- the loop over the racers, with the best time and the team so far
unfoldable pub fastest : Map Racer → (best : ℕ) → Team → Team
fastest [] best winner = winner
fastest ((uid, racer) ∷ racers) best winner =
    let taken = fastest racers racer.course_time racer.team in
    let passed = fastest racers best winner in
    if is_connected racer.state
      && not (racer.course_time == invalid_course_time)
      && ltb racer.course_time best
    then taken
    else passed

-- winningTeam
unfoldable pub winning_team : TeamMode → Map Racer → Team
winning_team team racers = fastest racers invalid_course_time solo
winning_team ffa racers = solo
winning_team single racers = solo

-- the loop that looks for the next best player in the room
unfoldable pub next_best : List ℕ → Room → Option ℕ
next_best [] room = none
next_best (uid ∷ scores) room =
    let rest = next_best scores room in if has_player uid room then some uid else rest

-- the room with another master
abbrev pub set_master : ℕ → Room → Room
set_master uid room = record room { details = record (room.details) { master_uid = uid } }

-- the choice of the new master: the uid that is announced, and the room
unfoldable pub choose_master : List ℕ → Room → ℕ × Room
choose_master [] room = (invalid_uid, room)
choose_master (first ∷ scores) room =
    if size room.players == 0
    then (invalid_uid, room)
    else (if has_player first room
        then (first, set_master first room)
        else elim (next_best (first ∷ scores) room) [
          | none ↦ (invalid_uid, room)
          | some uid ↦ (uid, set_master uid room)
        ])
