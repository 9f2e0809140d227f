-- ===== src/Realtime/Counts.antt =====
-- The length of the queue and the counter of what is pending.
use tgvive.Prelude.{
  ℕ, List, length, ◌≤◌, Bool, ◌∷◌, ◌<◌, none, ◌^◌, arith, some, ◌≡◌, length-append, ◌+◌, [], suc,
  Bool-cases, inr, subst, inl, Option, refl,
}
use tgvive.Realtime.{
  RuntimeTask, enqueue, ensure_album_waiter, add_waiter, deliver_album, take_job, count_job,
  discount_job, Job, advance_cursor, queue_size, stop_runtime, album, single,
}
use tgvive.Realtime.Dispatch.{see, unsee, add_to_album, deliver_each, Arrival, fire_timer, World}
use tgvive.Stats.{next_pending}
use tgvive.Filter.{Msg}
use tgvive.Prelude.Int.{ℤ}
use tgvive.Grouper.{add, fire, album_key}
use tgvive.Realtime.Happenings.{
  happen, happen_all, Happening, sees, forgets, queues, awaits, adds, fires, takes, counts,
  discounts, advances, stops, cancels, drops, await_step, begin_adding, add_picked, pick_out,
  goes_to_album, drop_albums,
}
use tgvive.Realtime.Waiters.{id_of}

module _ {Entity : Type 0} where
  -- `base` is what the other tasks have pending, and `n` bounds what was counted so far.
  pub record IsCounted (base n : ℕ) (t : RuntimeTask Entity) : Type 0 where
    pub queue_le : length t.queue ≤ queue_size
    pub covered : base + length t.queue + t.to_discount ≤ t.pending + t.to_count
    pub counted_le : t.pending + t.to_count ≤ n

  -- What changes none of these fields keeps the counts, and so does a greater bound.
  same_counts :
      (base n m : ℕ) (t t' : RuntimeTask Entity)
      → t'.queue ≡ t.queue
      → t'.pending ≡ t.pending
      → t'.to_count ≡ t.to_count
      → t'.to_discount ≡ t.to_discount
      → n ≤ m
      → IsCounted base n t
      → IsCounted base m t'
  same_counts base n m t t' a b c d l v = record {
    queue_le = rw a v.queue_le;
    covered = rw (a, b, c, d) v.covered;
    counted_le = let h = v.counted_le in rw (b, c) (omega (arith, h, l));
  }

  enqueue-IsCounted :
      (base n : ℕ) (pick : Bool) (job : Job Entity) (t : RuntimeTask Entity)
      → IsCounted base n t
      → IsCounted base (suc n) (enqueue pick job t).0
  unfolding enqueue
  enqueue-IsCounted base n pick job t v =
      let q = v.queue_le in
      let p = v.covered in
      let c = v.counted_le in
      let l = length-append t.queue (job ∷ []) in
      record {
        queue_le = ground (arith, l);
        covered = ground (arith, l);
        counted_le = ground (arith, l);
      }

  ensure-IsCounted :
      (base n : ℕ) (pick : Bool) (gid : ℤ) (from_pull : Bool) (t : RuntimeTask Entity)
      → IsCounted base n t
      → IsCounted base (suc n) (ensure_album_waiter pick gid from_pull t).0
  unfolding ensure_album_waiter add_waiter
  ensure-IsCounted base n pick gid from_pull t v =
      let w = enqueue-IsCounted base n pick (album from_pull gid t.next_chan) t v in
      let c = v.counted_le in
      record {
        queue_le = ground (arith, w.queue_le, v.queue_le);
        covered = ground (arith, w.covered, v.covered);
        counted_le = ground (arith, w.counted_le, c);
      }

  await-IsCounted :
      (base n : ℕ) (call : Arrival) (msg : Msg Entity) (w : World Entity)
      → IsCounted base n w.rt
      → IsCounted base (suc n) (await_step call msg w).rt
  unfolding await_step begin_adding
  await-IsCounted base n call msg w v =
      let e = ensure-IsCounted base n call.pick msg.grouped_id call.from_pull w.rt v in
      let c = v.counted_le in
      record {
        queue_le = ground (arith, e.queue_le, v.queue_le);
        covered = ground (arith, e.covered, v.covered);
        counted_le = ground (arith, e.counted_le, c);
      }

  deliver-IsCounted :
      (base n : ℕ) (gid : ℤ) (batches : List (List (Msg Entity))) (t : RuntimeTask Entity)
      → IsCounted base n t
      → IsCounted base n (deliver_each gid batches t)
  unfolding deliver_each deliver_album
  deliver-IsCounted base n gid [] t v = v
  deliver-IsCounted base n gid (b ∷ bs) t v =
      deliver-IsCounted base n gid bs (deliver_album gid b t) (
        same_counts base n n t (deliver_album gid b t) (ground arith) (ground arith) (ground arith)
          (ground arith) (omega arith) v)

  fire-IsCounted :
      (base n : ℕ) (gid : ℤ) (timer_id : ℕ) (w : World Entity)
      → IsCounted base n w.rt
      → IsCounted base n (fire_timer gid timer_id w).rt
  unfolding fire_timer
  fire-IsCounted base n gid timer_id w v =
      elim w.grouper
        as (λ o. IsCounted base n (fire_timer gid timer_id (record w { grouper = o })).rt) [
          | none ↦ v
          | some g ↦
              deliver-IsCounted base n gid (fire (album_key w.rt.task_id gid) timer_id g).1 w.rt v
        ]

  add_to-IsCounted :
      (base n : ℕ) (msg : Msg Entity) (w : World Entity)
      → IsCounted base n w.rt
      → IsCounted base n (add_to_album msg w).rt
  unfolding add_to_album
  add_to-IsCounted base n msg w v =
      elim w.grouper as (λ o. IsCounted base n (add_to_album msg (record w { grouper = o })).rt) [
        | none ↦ v
        | some g ↦
            deliver-IsCounted base n msg.grouped_id
              (add id_of w.rt.task_id msg.grouped_id msg g).flushed w.rt v
      ]

  picked-IsCounted :
      (base n : ℕ) (o : Option (Msg Entity × List (Msg Entity))) (w : World Entity)
      → IsCounted base n w.rt
      → IsCounted base n (add_picked o w).rt
  unfolding add_picked
  picked-IsCounted base n none w v = v
  picked-IsCounted base n (some (msg, rest)) w v = elim (Bool-cases (goes_to_album msg w)) [
    | inl q ↦ rw q (add_to-IsCounted base n msg (record w { adding = rest }) v)
    | inr q ↦ rw q v
  ]

  greater : (base n : ℕ) (t : RuntimeTask Entity) → IsCounted base n t → IsCounted base (suc n) t
  greater base n t v = same_counts base n (suc n) t t refl refl refl refl (omega arith) v

  happen-IsCounted :
      (base n : ℕ) (h : Happening Entity) (w : World Entity)
      → suc n < 2 ^ 64
      → IsCounted base n w.rt
      → IsCounted base (suc n) (happen h w).rt
  unfolding happen take_job advance_cursor stop_runtime count_job discount_job next_pending see
      unsee drop_albums
  happen-IsCounted base n (sees call msg) w b v = greater base n w.rt v
  happen-IsCounted base n (forgets msg) w b v = greater base n w.rt v
  happen-IsCounted base n (queues call msg) w b v =
      enqueue-IsCounted base n call.pick (single call.from_pull msg) w.rt v
  happen-IsCounted base n (awaits call msg) w b v = await-IsCounted base n call msg w v
  happen-IsCounted base n (adds i) w b v =
      greater base n (add_picked (pick_out i w.adding) w).rt
        (picked-IsCounted base n (pick_out i w.adding) w v)
  happen-IsCounted base n (fires gid timer_id) w b v =
      greater base n (fire_timer gid timer_id w).rt (fire-IsCounted base n gid timer_id w v)
  happen-IsCounted base n takes w b v =
      let q = v.queue_le in
      let p = v.covered in
      let c = v.counted_le in
      record { queue_le = ground arith; covered = ground arith; counted_le = ground arith }
  happen-IsCounted base n counts w b v =
      let q = v.queue_le in
      let p = v.covered in
      let c = v.counted_le in
      record { queue_le = ground arith; covered = ground arith; counted_le = ground arith }
  happen-IsCounted base n discounts w b v =
      let q = v.queue_le in
      let p = v.covered in
      let c = v.counted_le in
      record { queue_le = ground arith; covered = ground arith; counted_le = ground arith }
  happen-IsCounted base n (advances cursor) w b v =
      same_counts base n (suc n) w.rt (advance_cursor cursor w.rt).0 (ground arith) (ground arith)
        (ground arith) (ground arith) (omega arith) v
  happen-IsCounted base n stops w b v =
      same_counts base n (suc n) w.rt (stop_runtime w.rt) (ground arith) (ground arith)
        (ground arith) (ground arith) (omega arith) v
  happen-IsCounted base n cancels w b v =
      same_counts base n (suc n) w.rt _ refl refl refl refl (omega arith) v
  happen-IsCounted base n drops w b v =
      same_counts base n (suc n) w.rt (drop_albums w).rt (ground arith) (ground arith)
        (ground arith) (ground arith) (omega arith) v

  run-IsCounted :
      (base n : ℕ) (hs : List (Happening Entity)) (w : World Entity)
      → n + length hs < 2 ^ 64
      → IsCounted base n w.rt
      → IsCounted base (n + length hs) (happen_all hs w).rt
  unfolding happen_all
  run-IsCounted base n [] w b v =
      same_counts base n (n + 0) w.rt w.rt refl refl refl refl (omega arith) v
  run-IsCounted base n (h ∷ hs) w b v =
      let e : suc n + length hs ≡ n + suc (length hs) = omega arith in
      subst (λ k. IsCounted base k (happen_all hs (happen h w)).rt) e
        (run-IsCounted base (suc n) hs (happen h w) (omega (arith, e))
          (happen-IsCounted base n h w (omega arith) v))

  -- After any steps, fewer than 2^64 with `base`, of a task that starts with an empty queue, while the
  -- counter stands at `base`, the number of the jobs of the other tasks: at most 512 jobs are in the
  -- queue, and the counter, with the calls that have still to raise it, shows no fewer jobs than
  -- `base`, those of the queue, and the calls that have still to lower it.
  pub pending_enough :
      (base : ℕ) (hs : List (Happening Entity)) (w : World Entity)
      → base + length hs < 2 ^ 64
      → w.rt.queue ≡ []
      → w.rt.pending ≡ base
      → w.rt.to_count ≡ 0
      → w.rt.to_discount ≡ 0
      → let t = (happen_all hs w).rt in
        (length t.queue ≤ 512) × (base + length t.queue + t.to_discount ≤ t.pending + t.to_count)
  pending_enough base hs w b e f c d =
      let v = run-IsCounted base base hs w b record {
        queue_le = rw e (omega arith);
        covered = rw (e, f, c, d) (omega arith);
        counted_le = rw (f, c) (omega arith);
      } in
      (v.queue_le, v.covered)
