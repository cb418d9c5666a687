-- ===== src/Util/Scheduler/Order.antt =====
-- What one tick does to the job list.
use mathlib.Core.List.{append-nil, append_assoc}
use alicia_server.Common.{
  ℕ, suc, ◌≤◌, ◌≡◌, ◌⊎◌, inl, inr, refl, sym, arith, List, [], ◌∷◌, ◌++◌, Bool-cases, false, none,
  some, leb,
}
use alicia_server.Util.Scheduler.{Job, Scheduler, Tasks, scan, tick}

module _ {Task : Type 0} where
  -- the whole job list
  abbrev pub jobs : Scheduler Task → List (Job Task)
  jobs s = s.passed ++ s.ahead

  -- The job `j` of `before` was executed at the reading `i`: it was due, it is gone, every other
  -- job is still there in its order, and the jobs that it queued stand behind them.
  pub record Executed (tasks : Tasks Task) (now : ℕ → ℕ) (before after : List (Job Task))
      (j : Job Task) : Type 0 where
    pub i : ℕ
    pub front : List (Job Task)
    pub back : List (Job Task)
    pub was : before ≡ front ++ j ∷ back
    pub is : after ≡ front ++ back ++ tasks.queued j.task
    pub is_due : j.due ≤ now i

  scan_lem :
      (tasks : Tasks Task) (now : ℕ → ℕ) (i : ℕ) (passed ahead : List (Job Task))
      → let t = scan tasks now i passed ahead in
        ((t.executed ≡ none) × (t.rethrown ≡ false) × (jobs t.scheduler ≡ passed ++ ahead))
        ⊎ ((j : Job Task) × (t.executed ≡ some j)
            × (t.rethrown ≡ tasks.throws j.task)
            × Executed tasks now (passed ++ ahead) (jobs t.scheduler) j)
  unfolding scan
  scan_lem tasks now i passed [] = inl (refl, refl, refl)
  scan_lem tasks now i passed (job ∷ ahead) = elim (Bool-cases (leb job.due (now i))) [
    | inl due ↦ rw due (
        inr (
          job,
          refl,
          refl,
          record {
            i = i;
            front = passed;
            back = ahead;
            was = refl;
            is = sym (append_assoc passed ahead (tasks.queued job.task));
            is_due = ground arith;
          },
        ))
    | inr waits ↦
        rw (waits, ← append_assoc passed (job ∷ []) ahead)
          (scan_lem tasks now (suc i) (passed ++ job ∷ []) ahead)
  ]

  tick_cases :
      (tasks : Tasks Task) (now : ℕ → ℕ) (s : Scheduler Task) (ahead : List (Job Task))
      → s.ahead ≡ ahead
      → let t = tick tasks now s in
        ((t.executed ≡ none) × (t.rethrown ≡ false) × (jobs t.scheduler ≡ jobs s))
        ⊎ ((j : Job Task) × (t.executed ≡ some j)
            × (t.rethrown ≡ tasks.throws j.task)
            × Executed tasks now (jobs s) (jobs t.scheduler) j)
  unfolding tick
  tick_cases tasks now s [] e = rw (e, tick, append-nil) (scan_lem tasks now 0 [] s.passed)
  tick_cases tasks now s (j ∷ js) e = rw (e, tick) (scan_lem tasks now 0 s.passed (j ∷ js))

  -- A tick executes at most one job, and only one that is due: then that job alone leaves the list,
  -- what it queued is added at the end, and its exception is passed on. Else nothing changes.
  pub tick_lem :
      (tasks : Tasks Task) (now : ℕ → ℕ) (s : Scheduler Task)
      → let t = tick tasks now s in
        ((t.executed ≡ none) × (t.rethrown ≡ false) × (jobs t.scheduler ≡ jobs s))
        ⊎ ((j : Job Task) × (t.executed ≡ some j)
            × (t.rethrown ≡ tasks.throws j.task)
            × Executed tasks now (jobs s) (jobs t.scheduler) j)
  tick_lem tasks now s = tick_cases tasks now s s.ahead refl
