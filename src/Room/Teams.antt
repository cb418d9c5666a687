-- ===== src/Room/Teams.antt =====
-- New players keep the two teams of a team room balanced.
use alicia_server.Common.{ℕ, ◌+◌, ◌≤◌, ◌≡◌, arith, Bool, true, false, ◌∷◌, []}
use alicia_server.Common.Map.{Map, contains, insert}
use alicia_server.Common.Outcome.{returned}
use alicia_server.Room.{
  Room, Player, Team, red, blue, in_team, count_team, choose_team, add_player, is_team_mode,
}

count_team-insert :
    (t : Team) (uid : ℕ) (p : Player) (m : Map Player)
    → contains uid m ≡ false
    → count_team t (insert uid p m) ≡ count_team t m + in_team t p
unfolding count_team insert contains
count_team-insert t uid p [] h = omega arith
count_team-insert t uid p ((j, q) ∷ m) h = ground (arith, count_team-insert t uid p m)

-- Within a difference of `d` players between the teams, for a `d` of at least one, a new player of a
-- team room leaves the difference within `d`, and is in one of the two teams.
pub add_player-balance :
    (coin : Bool) (client uid d : ℕ) (r : Room)
    → is_team_mode r.details.team_mode ≡ true
    → 1 ≤ d
    → count_team red r.players ≤ count_team blue r.players + d
    → count_team blue r.players ≤ count_team red r.players + d
    → (add_player coin client uid r).0 ≡ returned true
    → let players = (add_player coin client uid r).1.players in
      (count_team red players ≤ count_team blue players + d)
      × (count_team blue players ≤ count_team red players + d)
      × (count_team red players + count_team blue players
          ≡ count_team red r.players + count_team blue r.players + 1)
unfolding add_player choose_team
add_player-balance coin client uid d r team one hr hb e = ground (
  arith,
  count_team-insert red uid
      (record { is_ready = false; team = choose_team coin r; client_id = client }) r.players,
  count_team-insert blue uid
      (record { is_ready = false; team = choose_team coin r; client_id = client }) r.players,
)
