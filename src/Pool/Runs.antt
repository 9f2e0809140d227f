-- ===== src/Pool/Runs.antt =====
-- What every step of the pool keeps, in whatever order the steps are interleaved.
use tgvive.Prelude.{
  Bool, List, ℕ, ◌∷◌, ◌++◌, Option, length, map, if◌then◌else◌, [], some, suc, ◌≡◌, ◌&&◌, ◌+◌,
  arith, true, false, ltb, ◌⊎◌, ap, eqb, ◌≤◌, refl, inl, ◌∙◌, inr, none, append_assoc, sym, zero,
  length-append, append_nil,
}
use tgvive.Pool.{
  put_back, pull, JobItem, Pool, Moved, send_item, take_item, run_item, finish_item, exit_worker,
  with_sender, pool_step, run_pool, moved, Sender, enter_pool, PoolEvent, leave, and_then, panicked,
  enter, blocked, send, give_up, complete, take, set_closed, close_channel, exit,
}

module _ {A : Type 0} (p : A → Bool) where
  unfoldable pub count_jobs : List A → ℕ
  count_jobs [] = 0
  count_jobs (x ∷ xs) = (if p x then 1 else 0) + count_jobs xs

  pub count_jobs_snoc :
      (xs : List A) (x : A) → count_jobs (xs ++ x ∷ []) ≡ count_jobs xs + (if p x then 1 else 0)
  unfolding count_jobs
  count_jobs_snoc [] x = omega arith
  count_jobs_snoc (y ∷ ys) x = omega (arith, count_jobs_snoc ys x)

  -- What is pulled from a place is one of the elements.
  abbrev pub IsPulled : List A → Option (A × List A) → Type 0
  IsPulled xs none = Unit {0}
  IsPulled xs (some (x, rest)) =
      (count_jobs xs ≡ (if p x then 1 else 0) + count_jobs rest) × (length xs ≡ suc (length rest))

  put_back-IsPulled :
      (x : A) (xs : List A) (r : Option (A × List A))
      → IsPulled xs r
      → IsPulled (x ∷ xs) (put_back x r)
  unfolding put_back count_jobs
  put_back-IsPulled x xs none h = tt
  put_back-IsPulled x xs (some (y, ys)) h = (omega (arith, h.0), omega (arith, h.1))

  pub pull-IsPulled : (n : ℕ) (xs : List A) → IsPulled xs (pull n xs)
  unfolding pull count_jobs
  pull-IsPulled n [] = tt
  pull-IsPulled zero (x ∷ xs) = (refl, refl)
  pull-IsPulled (suc n) (x ∷ xs) = put_back-IsPulled x xs (pull n xs) (pull-IsPulled n xs)

pub length-zero : {A : Type 0} (xs : List A) → length xs ≡ 0 → xs ≡ []
length-zero [] h = refl
length-zero (x ∷ xs) h = absurd (omega arith)

module _ {Err : Type 0} (kind : JobItem Err → Bool) (workers : ℕ) where
  -- The jobs that the channel took were taken from it in the order in which they were sent, or wait in
  -- the queue. Of each kind of job, as many as were taken are running or finished; each that is
  -- finished has its outcome. The queue is within its capacity, and each worker is idle, runs one job,
  -- or has left, which none does before the channel is closed and empty.
  abbrev pub IsAccounted : Pool Err → Type 0
  IsAccounted p =
      (p.sent ≡ p.taken ++ p.queue)
      × (count_jobs kind p.taken ≡ count_jobs kind p.running + count_jobs kind p.finished)
      × (p.outcomes ≡ map run_item p.finished)
      × (length p.queue ≤ p.capacity)
      × (p.idle + length p.running + p.exited ≡ workers)
      × ((p.exited ≡ 0) ⊎ ((p.queue ≡ []) × (p.channel_closed ≡ true)))

  unfoldable pub Leads : Moved Err → Type 0
  Leads (moved p) = IsAccounted p
  Leads panicked = Unit {0}
  Leads blocked = Unit {0}

  if-Leads :
      (b : Bool) (x y : Moved Err)
      → (b ≡ true → Leads x)
      → (b ≡ false → Leads y)
      → Leads (if b then x else y)
  if-Leads true x y h k = h refl
  if-Leads false x y h k = k refl

  not_exited : (p : Pool Err) → IsAccounted p → p.channel_closed ≡ false → p.exited ≡ 0
  not_exited p (line, ran_all, outs, room, all, gone) open_channel = pick_first gone
    where
      pick_first : (p.exited ≡ 0) ⊎ ((p.queue ≡ []) × (p.channel_closed ≡ true)) → p.exited ≡ 0
      pick_first (inl e) = e
      pick_first (inr (e, shut)) = cc

  send_item-Leads : (s : Sender Err) (p : Pool Err) → IsAccounted p → Leads (send_item s p)
  unfolding send_item Leads
  send_item-Leads s p v =
      let (line, ran_all, outs, room, all, gone) = v in
      if-Leads p.channel_closed _ _ (λ e. tt)
        (λ e.
          if-Leads (ltb (length p.queue) p.capacity) _ _
            (λ f. (
              ap (λ xs. xs ++ s.item ∷ []) line ∙ append_assoc p.taken p.queue (s.item ∷ []),
              ran_all,
              outs,
              ground (arith, f, length-append p.queue (s.item ∷ [])),
              all,
              inl (not_exited p v e),
            ))
            (λ f.
              if-Leads (eqb (length p.queue) 0 && ltb 0 p.idle) _ _
                (λ g.
                  let none_queued = length-zero p.queue (ground (arith, g)) in
                  (
                    ap (λ xs. xs ++ s.item ∷ []) line
                        ∙ ap (λ q. (p.taken ++ q) ++ s.item ∷ []) none_queued
                        ∙ ap (λ xs. xs ++ s.item ∷ []) (append_nil p.taken)
                        ∙ sym (append_nil (p.taken ++ s.item ∷ []))
                        ∙ ap (λ q. (p.taken ++ s.item ∷ []) ++ q) (sym none_queued),
                    omega (
                      arith,
                      ran_all,
                      count_jobs_snoc kind p.taken s.item,
                      count_jobs_snoc kind p.running s.item,
                    ),
                    outs,
                    room,
                    ground (arith, g, all, length-append p.running (s.item ∷ [])),
                    inl (not_exited p v e),
                  ))
                (λ g. if-Leads s.blocks _ _ (λ k. tt) (λ k. v))))

  take_item-Leads :
      (p : Pool Err) (queue : List (JobItem Err))
      → p.queue ≡ queue
      → IsAccounted p
      → Leads (take_item p queue)
  unfolding take_item Leads
  take_item-Leads p [] e v = tt
  take_item-Leads p (item ∷ rest) e (line, ran_all, outs, room, all, gone) =
      if-Leads (ltb 0 p.idle) _ _
        (λ f. (
          line ∙ ap (λ q. p.taken ++ q) e ∙ sym (append_assoc p.taken (item ∷ []) rest),
          omega (
            arith,
            ran_all,
            count_jobs_snoc kind p.taken item,
            count_jobs_snoc kind p.running item,
          ),
          outs,
          omega (arith, room, ap length e),
          ground (arith, f, all, length-append p.running (item ∷ [])),
          still gone,
        ))
        (λ f. tt)
    where
      still :
          (p.exited ≡ 0) ⊎ ((p.queue ≡ []) × (p.channel_closed ≡ true))
          → (p.exited ≡ 0) ⊎ ((rest ≡ []) × (p.channel_closed ≡ true))
      still (inl h) = inl h
      still (inr (h, shut)) = cc (sym e ∙ h)

  map-snoc :
      (xs : List (JobItem Err)) (x : JobItem Err)
      → map run_item xs ++ run_item x ∷ [] ≡ map run_item (xs ++ x ∷ [])
  map-snoc [] x = refl
  map-snoc (y ∷ ys) x = ap (λ zs. run_item y ∷ zs) (map-snoc ys x)

  finish_item-Leads :
      (p : Pool Err) (pulled : Option (JobItem Err × List (JobItem Err)))
      → IsPulled kind p.running pulled
      → IsAccounted p
      → Leads (finish_item p pulled)
  unfolding finish_item Leads
  finish_item-Leads p none h v = tt
  finish_item-Leads p (some (item, rest)) h (line, ran_all, outs, room, all, gone) = (
    line,
    omega (arith, ran_all, h.0, count_jobs_snoc kind p.finished item),
    ap (λ xs. xs ++ run_item item ∷ []) outs ∙ map-snoc p.finished item,
    room,
    omega (arith, all, h.1),
    gone,
  )

  exit_worker-Leads : (p : Pool Err) → IsAccounted p → Leads (exit_worker p)
  unfolding exit_worker Leads
  exit_worker-Leads p (line, ran_all, outs, room, all, gone) =
      if-Leads (p.channel_closed && eqb (length p.queue) 0 && ltb 0 p.idle) _ _
        (λ f. (
          line,
          ran_all,
          outs,
          room,
          ground (arith, f, all),
          inr (length-zero p.queue (ground (arith, f)), ground (arith, f)),
        ))
        (λ f. tt)

  with_sender-Leads :
      (f : Sender Err → Pool Err → Moved Err) (p : Pool Err)
      (pulled : Option (Sender Err × List (Sender Err)))
      → ((s : Sender Err) (r : Pool Err) → IsAccounted r → Leads (f s r))
      → IsAccounted p
      → Leads (with_sender f p pulled)
  unfolding with_sender Leads
  with_sender-Leads f p none h v = tt
  with_sender-Leads f p (some (s, rest)) h v = h s (record p { senders = rest }) v

  shut-Leads : (p : Pool Err) → IsAccounted p → Leads (moved (record p { channel_closed = true }))
  unfolding Leads
  shut-Leads p (line, ran_all, outs, room, all, gone) = (line, ran_all, outs, room, all, still gone)
    where
      still :
          (p.exited ≡ 0) ⊎ ((p.queue ≡ []) × (p.channel_closed ≡ true))
          → (p.exited ≡ 0) ⊎ ((p.queue ≡ []) × (true ≡ true))
      still (inl h) = inl h
      still (inr (h, shut)) = inr (h, refl)

  pub pool_step-Leads : (e : PoolEvent Err) (p : Pool Err) → IsAccounted p → Leads (pool_step e p)
  unfolding pool_step enter_pool leave Leads
  pool_step-Leads (enter s) p v = if-Leads p.closed _ _ (λ h. v) (λ h. v)
  pool_step-Leads (send n) p v = with_sender-Leads send_item p (pull n p.senders) send_item-Leads v
  pool_step-Leads (give_up n) p v = with_sender-Leads leave p (pull n p.senders) (λ s r h. h) v
  pool_step-Leads (complete n) p v =
      finish_item-Leads p (pull n p.running) (pull-IsPulled kind n p.running) v
  pool_step-Leads take p v = take_item-Leads p p.queue refl v
  pool_step-Leads set_closed p v = v
  pool_step-Leads close_channel p v = if-Leads p.closed _ _ (λ h. shut-Leads p v) (λ h. tt)
  pool_step-Leads exit p v = exit_worker-Leads p v

  -- From a pool of which this holds, whatever steps the goroutines make and however these are
  -- interleaved, it holds of the pool that they lead to. The jobs that the channel took in are those
  -- that the workers took from it, in the same order, and those in the queue. Of each kind of job, as
  -- many as the workers took are running or finished, and each finished job has its outcome. The queue
  -- is within its capacity. Each worker is idle, runs one job or has left, and none has left unless
  -- the channel is closed and empty.
  pub run_pool-Leads :
      (es : List (PoolEvent Err)) (p : Pool Err) → IsAccounted p → Leads (run_pool es p)
  unfolding run_pool Leads and_then
  run_pool-Leads [] p v = v
  run_pool-Leads (e ∷ es) p v = onward (pool_step e p) (pool_step-Leads e p v) (run_pool-Leads es)
    where
      onward :
          (m : Moved Err)
          → Leads m
          → ((r : Pool Err) → IsAccounted r → Leads (run_pool es r))
          → Leads (and_then (run_pool es) m)
      onward (moved r) h later = later r h
      onward panicked h later = tt
      onward blocked h later = tt
