-- ===== src/Pool.antt =====
-- pkg/workerpool/pool.go: a bounded pool of workers. A state of the pool and of the goroutines that
-- are in its methods, and the steps that the scheduler may interleave. A method's test of the `closed`
-- flag and its send on the channel are two steps, and so are the two writes of Shutdown.
mod Runs
mod Drain
mod Closing
mod Tests
use tgvive.Prelude.{
  ℕ, Option, Bool, if◌then◌else◌, ◌++◌, List, true, none, not, ◌∷◌, ltb, some, ◌&&◌, suc, [],
  length, ◌-◌, eqb, false, zero,
}
use tgvive.Prelude.Int.{ℤ, ltb_ℤ, pos, pos_part, leb_ℤ}

-- A job as the pool sees it: whether it has a function, the error of its context when a worker comes
-- to it, and what the function returns.
pub record JobItem (Err : Type 0) : Type 0 where
  pub id : ℕ
  pub has_fn : Bool
  pub ctx_err : Option Err
  pub result : Option Err

pub data JobOutcome (Err : Type 0) : Type 0 where
  nil_job : JobOutcome Err
  cancelled : Err → JobOutcome Err
  ran : Option Err → JobOutcome Err

-- A goroutine in Submit, which blocks, or in TrySubmit, which does not.
pub record Sender (Err : Type 0) : Type 0 where
  pub item : JobItem Err
  pub blocks : Bool

-- `exited` counts the workers that have left their loop. `sent` are the jobs that the channel took,
-- in order, and `refused` those that ErrClosed, ErrQueueFull or their context turned away.
pub record Pool (Err : Type 0) : Type 0 where
  pub capacity : ℕ
  pub closed : Bool
  pub channel_closed : Bool
  pub queue : List (JobItem Err)
  pub idle : ℕ
  pub running : List (JobItem Err)
  pub exited : ℕ
  pub senders : List (Sender Err)
  pub sent : List (JobItem Err)
  pub taken : List (JobItem Err)
  pub finished : List (JobItem Err)
  pub outcomes : List (JobOutcome Err)
  pub refused : List (JobItem Err)

unfoldable pub new_pool : {Err : Type 0} → ℤ → ℤ → Pool Err
new_pool max_workers queue_size = record {
  capacity = if ltb_ℤ queue_size (pos 0) then 0 else pos_part queue_size;
  closed = false;
  channel_closed = false;
  queue = [];
  idle = if leb_ℤ max_workers (pos 0) then 1 else pos_part max_workers;
  running = [];
  exited = 0;
  senders = [];
  sent = [];
  taken = [];
  finished = [];
  outcomes = [];
  refused = [];
}

-- The steps. `send`, `give_up` and `complete` are of the sender or the running job at a place.
pub data PoolEvent (Err : Type 0) : Type 0 where
  enter : Sender Err → PoolEvent Err
  send give_up complete : ℕ → PoolEvent Err
  take set_closed close_channel exit : PoolEvent Err

-- What a step does; `blocked` is a step that cannot be made.
pub data Moved (Err : Type 0) : Type 0 where
  moved : Pool Err → Moved Err
  panicked blocked : Moved Err

module _ {A : Type 0} where
  unfoldable pub put_back : A → Option (A × List A) → Option (A × List A)
  put_back x none = none
  put_back x (some (y, ys)) = some (y, x ∷ ys)

  -- The element at a place, and the others.
  unfoldable pub pull : ℕ → List A → Option (A × List A)
  pull n [] = none
  pull zero (x ∷ xs) = some (x, xs)
  pull (suc n) (x ∷ xs) = put_back x (pull n xs)

module _ {Err : Type 0} where
  -- What a worker makes of a job.
  unfoldable pub run_item : JobItem Err → JobOutcome Err
  run_item item =
      if not item.has_fn
      then nil_job
      else elim item.ctx_err [ some e ↦ cancelled e | none ↦ ran item.result ]

  -- The head of Submit and TrySubmit.
  unfoldable pub enter_pool : Sender Err → Pool Err → Moved Err
  enter_pool s p =
      if p.closed
      then moved (record p { refused = p.refused ++ s.item ∷ [] })
      else moved (record p { senders = p.senders ++ s ∷ [] })

  -- The send: into the queue, to an idle worker, or not.
  unfoldable pub send_item : Sender Err → Pool Err → Moved Err
  send_item s p =
      if p.channel_closed
      then panicked
      else if ltb (length p.queue) p.capacity
      then moved (record p { queue = p.queue ++ s.item ∷ []; sent = p.sent ++ s.item ∷ [] })
      else if eqb (length p.queue) 0 && ltb 0 p.idle
      then moved (record p {
        idle = p.idle - 1;
        running = p.running ++ s.item ∷ [];
        sent = p.sent ++ s.item ∷ [];
        taken = p.taken ++ s.item ∷ [];
      })
      else if s.blocks
      then blocked
      else moved (record p { refused = p.refused ++ s.item ∷ [] })

  unfoldable pub with_sender :
      (Sender Err → Pool Err → Moved Err)
      → Pool Err
      → Option (Sender Err × List (Sender Err))
      → Moved Err
  with_sender f p none = blocked
  with_sender f p (some (s, rest)) = f s (record p { senders = rest })

  -- `case <-ctx.Done()`
  unfoldable pub leave : Sender Err → Pool Err → Moved Err
  leave s p = moved (record p { refused = p.refused ++ s.item ∷ [] })

  unfoldable pub take_item : Pool Err → List (JobItem Err) → Moved Err
  take_item p [] = blocked
  take_item p (item ∷ rest) =
      if ltb 0 p.idle
      then moved (record p {
        queue = rest;
        idle = p.idle - 1;
        running = p.running ++ item ∷ [];
        taken = p.taken ++ item ∷ [];
      })
      else blocked

  unfoldable pub finish_item : Pool Err → Option (JobItem Err × List (JobItem Err)) → Moved Err
  finish_item p none = blocked
  finish_item p (some (item, rest)) = moved (record p {
    running = rest;
    idle = suc p.idle;
    finished = p.finished ++ item ∷ [];
    outcomes = p.outcomes ++ run_item item ∷ [];
  })

  unfoldable pub exit_worker : Pool Err → Moved Err
  exit_worker p =
      if p.channel_closed && eqb (length p.queue) 0 && ltb 0 p.idle
      then moved (record p { idle = p.idle - 1; exited = suc p.exited })
      else blocked

  unfoldable pub pool_step : PoolEvent Err → Pool Err → Moved Err
  pool_step (enter s) p = enter_pool s p
  pool_step (send n) p = with_sender send_item p (pull n p.senders)
  pool_step (give_up n) p = with_sender leave p (pull n p.senders)
  pool_step (complete n) p = finish_item p (pull n p.running)
  pool_step take p = take_item p p.queue
  pool_step set_closed p = moved (record p { closed = true })
  pool_step close_channel p =
      if p.closed then moved (record p { channel_closed = true }) else blocked
  pool_step exit p = exit_worker p

  unfoldable pub and_then : (Pool Err → Moved Err) → Moved Err → Moved Err
  and_then f (moved p) = f p
  and_then f panicked = panicked
  and_then f blocked = blocked

  unfoldable pub run_pool : List (PoolEvent Err) → Pool Err → Moved Err
  run_pool [] p = moved p
  run_pool (e ∷ es) p = and_then (run_pool es) (pool_step e p)
