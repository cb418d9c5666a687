-- ===== src/System/Tests.antt =====
-- The systems at concrete inputs.
use alicia_server.Common.{
  inl, inr, ◌↔◌, ◌+◌, ◌≡◌, ◌≤◌, ◌⊎◌, refl, arith, true, false, List, [], ◌∷◌, some, none,
}
use alicia_server.Common.Map.{contains}
use alicia_server.Room.{Snapshot, Details, GameMode, TeamMode, default_details}
use alicia_server.System.Otp.{empty, grant_code}
use alicia_server.System.Otp.Once.{Attempt, admitted, admitted-le}
use alicia_server.Common.Outcome.{returned, threw, runtime_error}
use alicia_server.System.Infraction.{
  Infraction, mute, ban, Verdict, max_duration, check_outstanding_punishments,
}
use alicia_server.System.Infraction.Punished.{AnyOutstanding, check_outstanding_punishments_iff}
use alicia_server.System.Reward.{Records, breeding}
use alicia_server.System.Reward.Claims.{Claim, successes, successes-le}
use alicia_server.System.Matchmaking.Waiting.{queue_character-searched}
use alicia_server.System.Matchmaking.{
  matchmaking_interval, queue_character, Entry, matchmake, select_room, is_eligible,
}
use alicia_server.System.Matchmaking.Selection.{AreIneligible, IsFullest, matchmake-IsFullest}

-- Two clients knock with the same code within the thirty seconds.
abbrev two_attempts : List Attempt
two_attempts =
    record { now = 100; key = 7; code = 1234 } ∷ record { now = 200; key = 7; code = 1234 } ∷ []

admitted-le_example : admitted 7 two_attempts (grant_code 0 1234 7 empty).1 ≤ 1
admitted-le_example = admitted-le 0 1234 7 two_attempts empty

-- Two open speed rooms, the second one fuller, and a character who looks for one.
abbrev speed_details : Details
speed_details = record default_details {
  game_mode = GameMode.speed;
  team_mode = TeamMode.ffa;
  max_player_count = 8;
}

abbrev open_rooms : List Snapshot
open_rooms =
    record { uid = 1; details = speed_details; player_count = 2; is_playing = false }
    ∷ record { uid = 2; details = speed_details; player_count = 5; is_playing = false }
    ∷ []

abbrev seeker : Entry
seeker = record { queued_at = 0; game_mode = 1; team_mode = 1 }

matchmake-IsFullest_example :
    ((matchmake seeker open_rooms ≡ none) × AreIneligible seeker open_rooms)
    ⊎ ((room : Snapshot) × (matchmake seeker open_rooms ≡ some room.uid)
        × IsFullest seeker room open_rooms)
matchmake-IsFullest_example =
    matchmake-IsFullest seeker open_rooms
      ((λ e. absurd (omega (arith, e))), ((λ e. absurd (omega (arith, e))), tt))

matchmake_fuller : matchmake seeker open_rooms ≡ some 2
unfolding matchmake select_room is_eligible
matchmake_fuller = refl

queue_character-searched_example : (queue_character 0 7 1 1 []).0 ≡ some (0 + matchmaking_interval)
unfolding contains
queue_character-searched_example =
    (queue_character-searched 0 7 1 1 (λ i. 5) (λ i. open_rooms) [] refl).0

-- A breeding reward of 100 carrots for character 7, who claims it twice.
abbrev rewards : Records
rewards = record {
  rewards =
      (
        3,
        record {
          character_uid = 7;
          type_ = breeding;
          carrots = 100;
          is_claimed = false;
          created_at = 0;
          claimed_at = 0;
        },
      )
      ∷ [];
  carrots = (7, 50) ∷ [];
}

abbrev two_claims : List Claim
two_claims =
    record { now = 1; claim_uid = 3; character_uid = 7 }
    ∷ record { now = 2; claim_uid = 3; character_uid = 7 }
    ∷ []

successes-le_example : successes 3 two_claims rewards ≤ 1
successes-le_example = successes-le 3 two_claims rewards

-- A mute that has expired and a permanent ban.
abbrev records : List Infraction
records =
    record { punishment = mute; duration = 10; created_at = 5 }
    ∷ record { punishment = ban; duration = max_duration; created_at = 7 }
    ∷ []

check_outstanding_punishments_iff_example :
    (check_outstanding_punishments 20 none ≡ threw runtime_error)
    × ((verdict : Verdict) × (check_outstanding_punishments 20 (some records) ≡ returned verdict)
        × ((verdict.prevent_server_joining ≡ true) ↔ AnyOutstanding 20 ban records)
        × ((verdict.mute_active ≡ true) ↔ AnyOutstanding 20 mute records))
check_outstanding_punishments_iff_example =
    check_outstanding_punishments_iff 20 records (omega arith) (inr (omega arith), (inl refl, tt))
