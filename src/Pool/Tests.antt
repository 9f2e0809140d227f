-- ===== src/Pool/Tests.antt =====
-- Runs of the pool of pkg/workerpool/pool.go.
use tgvive.Prelude.{ℕ, eqb, true, ◌∷◌, none, [], arith, inl, refl, ◌≡◌}
use tgvive.Pool.{
  Pool, new_pool, JobItem, PoolEvent, run_pool, enter, send, set_closed, take, close_channel,
  complete, panicked,
}
use tgvive.Pool.Drain.{IsOver, drain, drain-IsOver}
use tgvive.Pool.Runs.{Leads, IsAccounted, run_pool-Leads, count_jobs}
use tgvive.Prelude.Int.{pos}
use tgvive.Pool.Closing.{shutdown_panics}

abbrev job : ℕ → JobItem ℕ
job id = record { id = id; has_fn = true; ctx_err = none; result = none }

abbrev submit : ℕ → PoolEvent ℕ
submit id = enter (record { item = job id; blocks = true })

-- A pool of one worker, which runs job 1, with a second job in its queue; the channel is closed.
abbrev closing : Pool ℕ
closing = record (new_pool (pos 1) (pos 2)) {
  closed = true;
  channel_closed = true;
  queue = job 2 ∷ [];
  idle = 0;
  running = job 1 ∷ [];
  sent = job 1 ∷ job 2 ∷ [];
  taken = job 1 ∷ [];
}

closing-IsAccounted : IsAccounted (λ j. true) 1 closing
unfolding new_pool count_jobs
closing-IsAccounted = (refl, refl, refl, omega arith, refl, inl refl)

drain-IsOver_example : IsOver (drain 5 closing)
drain-IsOver_example = drain-IsOver 1 (omega arith) 5 closing (omega arith) refl closing-IsAccounted

abbrev open_pool : Pool ℕ
open_pool = new_pool (pos 1) (pos 2)

open_pool-IsAccounted : IsAccounted (λ j. eqb j.id 2) 1 open_pool
unfolding new_pool count_jobs
open_pool-IsAccounted = (refl, refl, refl, omega arith, refl, inl refl)

run_pool-Leads_example :
    Leads
      (λ j. eqb j.id 2)
      1
      (run_pool (submit 1 ∷ send 0 ∷ submit 2 ∷ send 0 ∷ take ∷ complete 0 ∷ take ∷ []) open_pool)
run_pool-Leads_example =
    run_pool-Leads (λ j. eqb j.id 2) 1
      (submit 1 ∷ send 0 ∷ submit 2 ∷ send 0 ∷ take ∷ complete 0 ∷ take ∷ []) open_pool
      open_pool-IsAccounted

shutdown_panics_example :
    run_pool (submit 1 ∷ set_closed ∷ close_channel ∷ send 0 ∷ []) open_pool ≡ panicked
unfolding new_pool
shutdown_panics_example =
    shutdown_panics (record { item = job 1; blocks = true }) open_pool refl refl
