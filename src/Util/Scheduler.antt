-- ===== src/Util/Scheduler.antt =====
-- Scheduler of src/libserver/util/Scheduler.cpp.
--
-- The job list with its iterator is a pair of lists: the jobs in front of the iterator, and those
-- from it on, so that an iterator at the end has no job ahead. `_jobs.emplace_back` adds at the end
-- of the whole list and leaves the iterator: an iterator at the end stays at the end, behind the
-- new job. The mutex of Queue makes each call one step.
--
-- A task is outside: it may queue jobs of its own while it runs, and it may throw. The clock is read
-- anew in every round of the loop, so a tick is given the row of its readings.
pub mod Progress
pub mod Order
use alicia_server.Common.{
  ℕ, suc, List, [], ◌∷◌, ◌++◌, Bool, false, Option, none, some, leb, if◌then◌else◌,
}

pub record Job (Task : Type 0) : Type 0 where
  pub due : ℕ
  pub task : Task

pub record Scheduler (Task : Type 0) : Type 0 where
  pub passed : List (Job Task)
  pub ahead : List (Job Task)

-- what the tasks do: the jobs that they queue, and whether they throw
pub record Tasks (Task : Type 0) : Type 0 where
  pub queued : Task → List (Job Task)
  pub throws : Task → Bool

-- What a tick leaves: the scheduler, the job that it executed, and whether the task threw.
pub record Ticked (Task : Type 0) : Type 0 where
  pub scheduler : Scheduler Task
  pub executed : Option (Job Task)
  pub rethrown : Bool

module _ {Task : Type 0} where
  -- Scheduler::Queue
  unfoldable pub queue : Job Task → Scheduler Task → Scheduler Task
  queue job s = elim s.ahead [
    | [] ↦ record { passed = s.passed ++ job ∷ []; ahead = [] }
    | j ∷ js ↦ record { passed = s.passed; ahead = (j ∷ js) ++ job ∷ [] }
  ]

  -- the loop of Scheduler::Tick, from its `i`-th reading of the clock on
  unfoldable pub scan : Tasks Task → (ℕ → ℕ) → ℕ → List (Job Task) → List (Job Task) → Ticked Task
  scan tasks now i passed [] = record {
    scheduler = record { passed = passed; ahead = [] };
    executed = none;
    rethrown = false;
  }
  scan tasks now i passed (job ∷ ahead) =
      let later = scan tasks now (suc i) (passed ++ job ∷ []) ahead in
      if leb job.due (now i)
      then record {
        scheduler = record { passed = passed; ahead = ahead ++ tasks.queued job.task };
        executed = some job;
        rethrown = tasks.throws job.task;
      }
      else later

  -- Scheduler::Tick. An iterator at the end goes back to the front first.
  unfoldable pub tick : Tasks Task → (ℕ → ℕ) → Scheduler Task → Ticked Task
  unfolding scan
  tick tasks now s = elim s.ahead [
    | [] ↦ scan tasks now 0 [] s.passed
    | j ∷ js ↦ scan tasks now 0 s.passed (j ∷ js)
  ]
