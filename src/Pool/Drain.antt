-- ===== src/Pool/Drain.antt =====
-- A pool whose channel is closed comes to its end.
use tgvive.Pool.{
  Pool, Moved, JobItem, moved, PoolEvent, pool_step, pull, complete, and_then, finish_item,
  panicked, take, take_item, blocked, exit, exit_worker,
}
use tgvive.Prelude.{
  List, ℕ, ◌*◌, ◌<◌, length, suc, ◌≡◌, ◌+◌, ◌∷◌, eqb, true, [], zero, false, arith, ap, inl, inr,
  length-append, ◌≤◌, refl, Bool,
}
use tgvive.Pool.Runs.{IsAccounted, length-zero, Leads, pool_step-Leads, count_jobs}

module _ {Err : Type 0} where
  -- The work that is left: each step of a worker makes it less.
  abbrev pub work_left : Pool Err → ℕ
  work_left p = 3 * length p.queue + 2 * length p.running + p.idle

  -- The next step of a worker: it finishes a job, or takes one, or leaves.
  unfoldable pub next_event : List (JobItem Err) → List (JobItem Err) → PoolEvent Err
  next_event (item ∷ rest) queue = complete 0
  next_event [] (item ∷ rest) = take
  next_event [] [] = exit

  -- The workers' steps, one after the other.
  unfoldable pub drain : ℕ → Pool Err → Moved Err
  drain zero p = moved p
  drain (suc fuel) p = elim (eqb (work_left p) 0) [
    | true ↦ moved p
    | false ↦ and_then (drain fuel) (pool_step (next_event p.running p.queue) p)
  ]

  -- A worker's step is made, and less work is left.
  unfoldable Advances : Pool Err → Moved Err → Type 0
  Advances p (moved r) = (r.channel_closed ≡ true) × (work_left r < work_left p)
  Advances p panicked = ⊥
  Advances p blocked = ⊥

  -- Every job that was sent is finished, and no worker is left.
  abbrev pub IsOver : Moved Err → Type 0
  IsOver (moved p) =
      (p.queue ≡ []) × (p.running ≡ []) × (p.idle ≡ 0) × (length p.finished ≡ length p.sent)
  IsOver panicked = ⊥
  IsOver blocked = ⊥

  module _ (workers : ℕ) (some_worker : 0 < workers) where
    next_event-Advances :
        (p : Pool Err) (running queue : List (JobItem Err))
        → p.running ≡ running
        → p.queue ≡ queue
        → p.channel_closed ≡ true
        → 0 < work_left p
        → IsAccounted (λ j. true) workers p
        → Advances p (pool_step (next_event running queue) p)
    unfolding next_event Advances pool_step pull finish_item take_item exit_worker
    next_event-Advances p (item ∷ rest) queue r q shut work v =
        rw (r, pull) (shut, omega (arith, ap length r))
    next_event-Advances p [] (item ∷ rest) r q shut work v =
        let (line, ran_all, outs, room, all, gone) = v in
        let ready : 0 < p.idle = elim gone [
          | inl e ↦ omega (arith, ap length r)
          | inr e ↦ absurd (omega (arith, ap length q, ap length (e.0)))
        ] in
        ground (arith, q, r, shut, ready, ap length q, length-append p.running (item ∷ []))
    next_event-Advances p [] [] r q shut work v =
        let none_queued : length p.queue ≡ 0 = ap length q in
        let ready : 0 < p.idle = omega (arith, ap length r, none_queued) in
        ground (arith, shut, none_queued, ready)

    count_jobs_all : (xs : List (JobItem Err)) → count_jobs (λ j. true) xs ≡ length xs
    unfolding count_jobs
    count_jobs_all [] = refl
    count_jobs_all (x ∷ xs) = omega (arith, count_jobs_all xs)

    over_lem :
        (p : Pool Err) → work_left p ≡ 0 → IsAccounted (λ j. true) workers p → IsOver (moved p)
    over_lem p none_left (line, ran_all, outs, room, all, gone) =
        let q = length-zero p.queue (omega arith) in
        let r = length-zero p.running (omega arith) in
        (
          q,
          r,
          omega arith,
          omega (
            arith,
            ap length line,
            length-append p.taken p.queue,
            ap length q,
            ran_all,
            ap length r,
            count_jobs_all p.taken,
            count_jobs_all p.running,
            count_jobs_all p.finished,
          ),
        )

    drain-step :
        (fuel : ℕ) (p : Pool Err) (m : Moved Err)
        → Advances p m
        → Leads (λ j. true) workers m
        → work_left p ≤ suc fuel
        → ((r : Pool Err)
            → work_left r ≤ fuel
            → r.channel_closed ≡ true
            → IsAccounted (λ j. true) workers r
            → IsOver (drain fuel r))
        → IsOver (and_then (drain fuel) m)
    unfolding and_then Advances Leads
    drain-step fuel p (moved r) (shut, less) v short later = later r (omega arith) shut v
    drain-step fuel p panicked h v short later = h
    drain-step fuel p blocked h v short later = h

    -- Once the channel of a pool with a worker is closed, and the pool's jobs and workers are
    -- accounted for, the steps of the workers, as many as there is work left, are all made, and after
    -- them every job that was sent is finished and every worker has left.
    pub drain-IsOver :
        (fuel : ℕ) (p : Pool Err)
        → work_left p ≤ fuel
        → p.channel_closed ≡ true
        → IsAccounted (λ j. true) workers p
        → IsOver (drain fuel p)
    unfolding drain
    drain-IsOver zero p short shut v = over_lem p (omega arith) v
    drain-IsOver (suc fuel) p short shut v =
        choose (eqb (work_left p) 0) refl (next_event-Advances p p.running p.queue refl refl shut)
          (λ r a b c. drain-IsOver fuel r a b c)
      where
        choose :
            (b : Bool)
            → eqb (work_left p) 0 ≡ b
            → (0 < work_left p
                → IsAccounted (λ j. true) workers p
                → Advances p (pool_step (next_event p.running p.queue) p))
            → ((r : Pool Err)
                → work_left r ≤ fuel
                → r.channel_closed ≡ true
                → IsAccounted (λ j. true) workers r
                → IsOver (drain fuel r))
            → IsOver (elim b [
              | true ↦ moved p
              | false ↦ and_then (drain fuel) (pool_step (next_event p.running p.queue) p)
            ])
        choose true e advance later = over_lem p (ground (arith, e)) v
        choose false e advance later =
            drain-step fuel p _ (advance (ground (arith, e)) v)
              (pool_step-Leads (λ j. true) workers (next_event p.running p.queue) p v) short later
