-- ===== src/Util/Scheduler/Progress.antt =====
-- A job that is due is executed after a bounded number of ticks.
use alicia_server.Common.{
  ℕ, zero, suc, ◌≤◌, ◌<◌, ◌≡◌, ◌⊎◌, inl, inr, refl, arith, List, [], ◌∷◌, ◌++◌, Bool-cases, Option,
  none, some, leb, get_elem?, Among,
}
use alicia_server.Util.Scheduler.{Job, Scheduler, Tasks, scan, tick}

get_elem?-append_left {ℓ} :
    {A : Type ℓ} (xs ys : List A) (p : ℕ) (a : A)
    → get_elem? xs p ≡ some a
    → get_elem? (xs ++ ys) p ≡ some a
get_elem?-append_left [] ys p a e = cc
get_elem?-append_left (x ∷ xs) ys zero a e = e
get_elem?-append_left (x ∷ xs) ys (suc p) a e = get_elem?-append_left xs ys p a e

module _ {Task : Type 0} where
  abbrev one : Option (Job Task) → List (Job Task)
  one none = []
  one (some j) = j ∷ []

  -- the jobs that `n` ticks execute, where `now t` are the readings of tick `t`
  pub ran : Tasks Task → (ℕ → ℕ → ℕ) → ℕ → ℕ → Scheduler Task → List (Job Task)
  ran tasks now zero t s = []
  ran tasks now (suc n) t s =
      let r = tick tasks (now t) s in one r.executed ++ ran tasks now n (suc t) r.scheduler

  -- Either the due job is executed, or it comes nearer to the iterator.
  scan_nearer :
      (tasks : Tasks Task) (now : ℕ → ℕ) (i : ℕ) (passed ahead : List (Job Task)) (p : ℕ)
      (j : Job Task)
      → get_elem? ahead p ≡ some j
      → ((i : ℕ) → j.due ≤ now i)
      → let t = scan tasks now i passed ahead in
        (t.executed ≡ some j) ⊎ ((q : ℕ) × (q < p) × (get_elem? t.scheduler.ahead q ≡ some j))
  unfolding scan
  scan_nearer tasks now i passed [] p j e due = cc
  scan_nearer tasks now i passed (job ∷ ahead) zero j e due = inl (ground (arith, due i))
  scan_nearer tasks now i passed (job ∷ ahead) (suc p) j e due =
      elim (Bool-cases (leb job.due (now i))) [
        | inl yes_due ↦
            rw yes_due
              (inr (p, omega arith, get_elem?-append_left ahead (tasks.queued job.task) p j e))
        | inr waits ↦
            rw waits (elim (scan_nearer tasks now (suc i) (passed ++ job ∷ []) ahead p j e due) [
              | inl now_it ↦ inl now_it
              | inr (q, lt, at_q) ↦ inr (q, omega arith, at_q)
            ])
      ]

  tick_nearer :
      (tasks : Tasks Task) (now : ℕ → ℕ) (s : Scheduler Task) (ahead : List (Job Task)) (p : ℕ)
      (j : Job Task)
      → s.ahead ≡ ahead
      → get_elem? ahead p ≡ some j
      → ((i : ℕ) → j.due ≤ now i)
      → let t = tick tasks now s in
        (t.executed ≡ some j) ⊎ ((q : ℕ) × (q < p) × (get_elem? t.scheduler.ahead q ≡ some j))
  unfolding tick
  tick_nearer tasks now s [] p j e at due = cc
  tick_nearer tasks now s (x ∷ xs) p j e at due =
      rw (e, tick) (scan_nearer tasks now 0 s.passed (x ∷ xs) p j at due)

  Among-append_right : (j : Job Task) (xs ys : List (Job Task)) → Among j ys → Among j (xs ++ ys)
  Among-append_right j [] ys h = h
  Among-append_right j (x ∷ xs) ys h = inr (Among-append_right j xs ys h)

  -- A job that stands `p` places behind the iterator, and is due from now on, is executed within the
  -- next `p + 1` ticks, whatever the tasks before it queue and whether or not they throw.
  pub ran-reaches :
      (tasks : Tasks Task) (now : ℕ → ℕ → ℕ) (n t : ℕ) (s : Scheduler Task) (p : ℕ) (j : Job Task)
      → p < n
      → get_elem? s.ahead p ≡ some j
      → ((t i : ℕ) → j.due ≤ now t i)
      → Among j (ran tasks now n t s)
  unfolding ran
  ran-reaches tasks now zero t s p j lt at due = elim lt [ ]
  ran-reaches tasks now (suc n) t s p j lt at due =
      elim (tick_nearer tasks (now t) s s.ahead p j refl at (due t)) [
        | inl now_it ↦ rw now_it (inl refl)
        | inr (q, closer, at_q) ↦
            Among-append_right j (one (tick tasks (now t) s).executed)
              (ran tasks now n (suc t) (tick tasks (now t) s).scheduler)
              (ran-reaches tasks now n (suc t) (tick tasks (now t) s).scheduler q j (omega arith)
                at_q due)
      ]
