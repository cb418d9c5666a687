-- ===== src/System/Matchmaking/Waiting.antt =====
-- Every character who is queued for a match gets one answer.
use alicia_server.Common.{
  ℕ, zero, suc, ◌+◌, ◌-◌, ◌*◌, ◌≤◌, ◌<◌, ◌≡◌, ◌⊎◌, inl, inr, refl, ◌∙◌, arith, false, Option, none,
  some, List, leb, if◌then◌else◌, Bool-cases, Option-cases, ◌==◌,
}
use alicia_server.Common.Map.{lookup, contains, insert, erase, lookup-insert, lookup-erase}
use alicia_server.Room.{Snapshot}
use alicia_server.System.Matchmaking.{
  Entry, MatchmakeResult, MatchmakingQueue, dropped, notify, search_again, search_job,
  queue_character, matchmake, no_room, found_room, invalid_uid, matchmaking_interval,
  matchmaking_queue_timeout,
}

-- The search jobs of a character, one after the other, at most `rounds` of them: round `i` runs late by
-- `delay i`, and finds the rooms `rooms i`. It answers what the lobby is told, if anything.
unfoldable pub searched :
    (rounds i run_at uid : ℕ)
    → (delay : ℕ → ℕ) → (rooms : ℕ → List Snapshot) → MatchmakingQueue
    → Option MatchmakeResult × MatchmakingQueue
searched zero i run_at uid delay rooms queue = (none, queue)
searched (suc rounds) i run_at uid delay rooms queue =
    let job = search_job (run_at + delay i) uid (rooms i) queue in
    elim job.0 [
      | dropped ↦ (none, job.1)
      | notify result ↦ (some result, job.1)
      | search_again later ↦ searched rounds (suc i) later uid delay rooms job.1
    ]

-- A job of a queued character tells the lobby a result and takes the character off the queue, or, before
-- the timeout, asks to be run again a second later.
search_job-cases :
    (now uid : ℕ) (rooms : List Snapshot) (queue : MatchmakingQueue) (entry : Entry)
    → lookup uid queue ≡ some entry
    → ((result : MatchmakeResult) × (search_job now uid rooms queue
          ≡ (notify result, erase uid queue)))
      ⊎ ((now < entry.queued_at + matchmaking_queue_timeout)
          × (search_job now uid rooms queue ≡ (search_again (now + matchmaking_interval), queue)))
unfolding search_job
search_job-cases now uid rooms queue entry e =
    elim (Bool-cases (leb matchmaking_queue_timeout (now - entry.queued_at))) [
      | inl over ↦ inl (
        record { verdict = no_room; room_uid = invalid_uid },
        rw (e, search_job) (rw (over) refl),
      )
      | inr early ↦ elim (Option-cases (matchmake entry rooms)) [
        | inl f ↦ inr (ground (arith, early), rw (e, search_job) (rw (early, f) refl))
        | inr (room, f) ↦ inl (
          record { verdict = found_room; room_uid = room },
          rw (e, search_job) (rw (early, f) refl),
        )
      ]
    ]

again :
    (rounds i run_at uid : ℕ) (delay : ℕ → ℕ) (rooms : ℕ → List Snapshot) (queue : MatchmakingQueue)
    (later : ℕ)
    → search_job (run_at + delay i) uid (rooms i) queue ≡ (search_again later, queue)
    → searched (suc rounds) i run_at uid delay rooms queue
      ≡ searched rounds (suc i) later uid delay rooms queue
unfolding searched
again rounds i run_at uid delay rooms queue later f = rw (f, searched) (rw (f) refl)

searched_answer :
    (rounds i run_at uid : ℕ) (delay : ℕ → ℕ) (rooms : ℕ → List Snapshot) (queue : MatchmakingQueue)
    (entry : Entry)
    → lookup uid queue ≡ some entry
    → entry.queued_at + matchmaking_queue_timeout ≤ run_at + rounds * matchmaking_interval
    → (result : MatchmakeResult) × (searched (suc rounds) i run_at uid delay rooms queue
        ≡ (some result, erase uid queue))
unfolding searched
searched_answer zero i run_at uid delay rooms queue entry e h =
    elim (search_job-cases (run_at + delay i) uid (rooms i) queue entry e) [
      | inl (result, f) ↦ (result, rw (f, searched) (rw (f) refl))
      | inr (early, f) ↦ absurd (omega (arith, early))
    ]
searched_answer (suc rounds) i run_at uid delay rooms queue entry e h =
    elim (search_job-cases (run_at + delay i) uid (rooms i) queue entry e) [
      | inl (result, f) ↦ (result, rw (f, searched) (rw (f) refl))
      | inr (early, f) ↦
          (let later : ℕ = run_at + delay i + matchmaking_interval in
            let (result, g) =
              searched_answer rounds (suc i) later uid delay rooms queue entry e (omega arith) in
            (result, again (suc rounds) i run_at uid delay rooms queue later f ∙ g))
    ]

enqueued :
    (now uid game_mode team_mode : ℕ) (queue : MatchmakingQueue)
    → contains uid queue ≡ false
    → let entry : Entry = record {
      queued_at = now;
      game_mode = game_mode;
      team_mode = team_mode;
    } in
      queue_character now uid game_mode team_mode queue
      ≡ (some (now + matchmaking_interval), insert uid entry queue)
unfolding queue_character
enqueued now uid game_mode team_mode queue h = rw (h, queue_character) refl

-- Whatever rooms there are and however late its jobs run, a character who was not on the queue, is queued and stays so is
-- told one result by its thirtieth search job at the latest, and is then off the queue; the other
-- characters on the queue stay.
pub queue_character-searched :
    (now uid game_mode team_mode : ℕ) (delay : ℕ → ℕ) (rooms : ℕ → List Snapshot)
    (queue : MatchmakingQueue)
    → contains uid queue ≡ false
    → let queued = (queue_character now uid game_mode team_mode queue).1 in
      let after = searched 30 0 (now + matchmaking_interval) uid delay rooms queued in
      ((queue_character now uid game_mode team_mode queue).0 ≡ some (now + matchmaking_interval))
      × ((result : MatchmakeResult) × (after.0 ≡ some result))
      × ((other : ℕ) → lookup other after.1 ≡ (if uid == other then none else lookup other queue))
queue_character-searched now uid game_mode team_mode delay rooms queue h =
    let entry : Entry = record { queued_at = now; game_mode = game_mode; team_mode = team_mode } in
    let queued : MatchmakingQueue = insert uid entry queue in
    let found : lookup uid queued ≡ some entry =
      ground (arith, lookup-insert uid uid entry queue) in
    let (result, e) =
      searched_answer 29 0 (now + matchmaking_interval) uid delay rooms queued entry found
        (omega arith) in
    rw (enqueued now uid game_mode team_mode queue h, e)
      (
        refl,
        (result, refl),
        λ other. ground (arith, lookup-erase uid other queued, lookup-insert uid other entry queue),
      )
