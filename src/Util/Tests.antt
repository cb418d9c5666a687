-- ===== src/Util/Tests.antt =====
-- Streams and the scheduler at concrete inputs.
use alicia_server.Common.{
  ℕ, ◌+◌, ◌≤◌, ◌<◌, List, zero, ◌≡◌, refl, arith, false, [], ◌∷◌, some, Among,
}
use alicia_server.Common.Outcome.{returned}
use alicia_server.Util.Stream.{
  SinkStream, write_number, write_string, write_each, store_bytes, read_string,
}
use alicia_server.Util.Stream.Bytes.{to_bytes}
use alicia_server.Util.Stream.RoundTrip.{read_string-write_string}
use alicia_server.Util.Time.{duration_to_alicia_time}
use alicia_server.Util.Time.Fields.{read_alicia_time}
use alicia_server.Util.Time.Spent.{spent, spent-duration_to_alicia_time}
use alicia_server.Util.Text.{tokenize_string}
use alicia_server.Util.Text.Tokens.{join, AreFree, join-tokenize_string}
use alicia_server.Util.Scheduler.{Job, Scheduler, Tasks}
use alicia_server.Util.Scheduler.Progress.{ran, ran-reaches}

abbrev four_bytes : SinkStream
four_bytes = record { storage = 9 ∷ 9 ∷ 9 ∷ 9 ∷ []; cursor = 1 }

abbrev written : SinkStream
written = record { storage = 9 ∷ 1 ∷ 2 ∷ 9 ∷ []; cursor = 3 }

written_lem : write_number 2 four_bytes 513 ≡ returned written
unfolding write_number to_bytes store_bytes
written_lem = refl

read_string-write_string_example :
    read_string (λ s. s) (record { storage = 9 ∷ 65 ∷ 0 ∷ 9 ∷ []; cursor = 1 })
    ≡ some (returned (65 ∷ [], record { storage = 9 ∷ 65 ∷ 0 ∷ 9 ∷ []; cursor = 3 }))
unfolding write_string write_each to_bytes store_bytes
read_string-write_string_example =
    read_string-write_string (λ s. s) (λ s. s) (65 ∷ []) four_bytes
      (record { storage = 9 ∷ 65 ∷ 0 ∷ 9 ∷ []; cursor = 3 }) ((omega arith, omega arith), tt) refl

-- Tasks that are numbers: task 0 queues itself anew.
abbrev again : Job ℕ
again = record { due = 5; task = 0 }

abbrev other : Job ℕ
other = record { due = 5; task = 1 }

abbrev tasks : Tasks ℕ
tasks = record { queued = λ t. elim t [ zero ↦ again ∷ [] | _ ↦ [] ]; throws = λ t. false }

abbrev two_jobs : Scheduler ℕ
two_jobs = record { passed = []; ahead = again ∷ other ∷ [] }

ran-reaches_example : Among other (ran tasks (λ t i. 6) 2 0 two_jobs)
ran-reaches_example =
    ran-reaches tasks (λ t i. 6) 2 0 two_jobs 1 other (omega arith) refl (λ t i. omega arith)

-- A day and two minutes.
spent-duration_to_alicia_time_example :
    (spent (read_alicia_time (duration_to_alicia_time 86520)) ≤ 86520)
    × (86520 < spent (read_alicia_time (duration_to_alicia_time 86520)) + 60)
spent-duration_to_alicia_time_example = spent-duration_to_alicia_time 86520 (omega arith)

-- The characters 5 and 6 around two delimiters.
join-tokenize_string_example :
    (first : List ℕ) × (tokens : List (List ℕ)) × (tokenize_string 32 (5 ∷ 32 ∷ 32 ∷ 6 ∷ [])
      ≡ first ∷ tokens)
    × (join 32 first tokens ≡ 5 ∷ 32 ∷ 32 ∷ 6 ∷ [])
    × AreFree 32 (first ∷ tokens)
join-tokenize_string_example = join-tokenize_string 32 (5 ∷ 32 ∷ 32 ∷ 6 ∷ [])
