-- ===== src/Realtime/Taken.antt =====
-- What a dispatch that answers `true` has done with the message.
use tgvive.Prelude.{
  ℕ, List, Bool, ◌≡◌, true, some, arith, [], ◌<◌, ◌⊎◌, ◌≢◌, Bool-cases, inr, inl, Option,
  Option-cases, ap, sym, ◌∙◌, refl, subst, none, ◌++◌, ◌∷◌, nat_eq,
}
use tgvive.Realtime.Dispatch.{
  Arrival, deliver_each, add_to_album, finish, dispatch, queue_single, await_album, admit, World,
  after_waiter, see, in_album, accepts, see_in, has_grouper,
}
use tgvive.Realtime.{
  ensure_album_waiter, add_waiter, enqueue, RuntimeTask, single, Job, album, new_chan,
}
use tgvive.Filter.{Msg}
use tgvive.Prelude.Int.{ℤ, pos, eqb_ℤ_iff, eqb_ℤ, int_eq}
use tgvive.Grouper.{AlbumGrouper, add, AlbumGroup, album_key, has_id, album_key_eq}
use tgvive.Realtime.Waiters.{id_of}
use tgvive.Realtime.Albums.{added_flushed, added-IsHeld}
use tgvive.Realtime.Replies.{accepts-IsKeyed}
use tgvive.Dedup.{Deduper}
use tgvive.Prelude.Map.{lookup, lookup-insert, same_refl}

module _ {Entity : Type 0} (call : Arrival) (msg : Msg Entity) (w w' : World Entity) where
  -- The task made a job of the message.
  abbrev pub IsSent : Type 0
  IsSent =
      (enqueue call.pick (single call.from_pull msg) w.rt ≡ (w'.rt, true))
      × (w'.grouper ≡ w.grouper)

  -- Its album has a waiter, and was given the message.
  abbrev pub IsGiven : Type 0
  IsGiven =
      (ch : ℕ) × (g : AlbumGrouper (Msg Entity)) × (ensure_album_waiter call.pick msg.grouped_id
          call.from_pull w.rt
        ≡ (w'.rt, some ch))
      × (w.grouper ≡ some g)
      × (w'.grouper ≡ some (add id_of w.rt.task_id msg.grouped_id msg g).grouper)
      × (0 < w.rt.task_id)
      × (msg.grouped_id ≢ pos 0)

module _ {Entity : Type 0} where
  ensure-task_id :
      (pick : Bool) (gid : ℤ) (from_pull : Bool) (t : RuntimeTask Entity)
      → (ensure_album_waiter pick gid from_pull t).0.task_id ≡ t.task_id
  unfolding ensure_album_waiter add_waiter enqueue
  ensure-task_id pick gid from_pull t = ground arith

  deliver_nothing :
      (gid : ℤ) (batches : List (List (Msg Entity))) (t : RuntimeTask Entity)
      → batches ≡ []
      → deliver_each gid batches t ≡ t
  unfolding deliver_each
  deliver_nothing gid batches t e = ground (arith, e)

  -- The third step for a task and an album that have their IDs.
  pub added_world :
      (msg : Msg Entity) (w : World Entity) (g : AlbumGrouper (Msg Entity))
      → w.grouper ≡ some g
      → 0 < w.rt.task_id
      → msg.grouped_id ≢ pos 0
      → ((add_to_album msg w).rt ≡ w.rt)
        × ((add_to_album msg w).grouper
            ≡ some (add id_of w.rt.task_id msg.grouped_id msg g).grouper)
  unfolding add_to_album
  added_world msg w g e t n =
      let added = add id_of w.rt.task_id msg.grouped_id msg g in
      ground (
        arith,
        e,
        deliver_nothing msg.grouped_id added.flushed w.rt (added_flushed w.rt.task_id msg g t n),
      )

  queue_taken :
      (call : Arrival) (msg : Msg Entity) (w : World Entity) (d : Option Deduper)
      → (finish msg (queue_single call msg (record w { dedup = d }))).1 ≡ true
      → IsSent call msg w (finish msg (queue_single call msg (record w { dedup = d }))).0
  unfolding finish queue_single
  queue_taken call msg w d f =
      elim (Bool-cases (enqueue call.pick (single call.from_pull msg) w.rt).1) [
        | inl n ↦ rw n (refl, refl)
        | inr n ↦ absurd (ground (arith, n, f))
      ]

  pub grouper_of :
      (msg : Msg Entity) (w : World Entity)
      → in_album msg w ≡ true
      → ((g : AlbumGrouper (Msg Entity)) × (w.grouper ≡ some g)) × (msg.grouped_id ≢ pos 0)
  unfolding in_album has_grouper
  grouper_of msg w i = elim (Option-cases w.grouper) [
    | inl e ↦ absurd (ground (arith, e, i))
    | inr (g, e) ↦ ((g, e), ground (arith, i, eqb_ℤ_iff msg.grouped_id (pos 0)))
  ]

  await_taken :
      (call : Arrival) (msg : Msg Entity) (w : World Entity) (d : Option Deduper)
      → in_album msg w ≡ true
      → 0 < w.rt.task_id
      → (finish msg (await_album call msg (record w { dedup = d }))).1 ≡ true
      → IsGiven call msg w (finish msg (await_album call msg (record w { dedup = d }))).0
  unfolding finish await_album after_waiter
  await_taken call msg w d i z f =
      go (ensure_album_waiter call.pick msg.grouped_id call.from_pull w.rt).0
        (ensure_album_waiter call.pick msg.grouped_id call.from_pull w.rt).1 refl f
    where
      go :
          (t : RuntimeTask Entity) (o : Option ℕ)
          → ensure_album_waiter call.pick msg.grouped_id call.from_pull w.rt ≡ (t, o)
          → (finish msg (after_waiter msg (record w { dedup = d; rt = t }) o)).1 ≡ true
          → IsGiven call msg w (finish msg (after_waiter msg (record w { dedup = d; rt = t }) o)).0
      go t none p f = cc
      go t (some ch) p f =
          let ((g, e), n) = grouper_of msg w i in
          let same : t.task_id ≡ w.rt.task_id =
            sym (ap (λ (r : RuntimeTask Entity × Option ℕ). r.0.task_id) p)
            ∙ ensure-task_id call.pick msg.grouped_id call.from_pull w.rt in
          let (a, b) =
            added_world msg (record w { dedup = d; rt = t }) g e (subst (λ k. 0 < k) (sym same) z)
              n in
          (
            ch,
            g,
            p ∙ ap (λ (r : RuntimeTask Entity). (r, some ch)) (sym a),
            e,
            b ∙ ap (λ k. some (add id_of k msg.grouped_id msg g).grouper) same,
            z,
            n,
          )

  -- Which steps a dispatch has made that answers `true`.
  dispatch_steps :
      (call : Arrival) (msg : Msg Entity) (w : World Entity)
      → (dispatch call msg w).1 ≡ true
      → IsSent call msg w (dispatch call msg w).0 ⊎ IsGiven call msg w (dispatch call msg w).0
  unfolding dispatch admit finish see
  dispatch_steps call msg w h =
      let m = (see call msg w).0 in
      elim (Bool-cases (accepts call msg w.rt)) [
        | inr a ↦ absurd (ground (arith, a, h))
        | inl a ↦ elim (Bool-cases (see_in call w.rt.task_id msg.id w.dedup).1) [
          | inl s ↦ absurd (ground (arith, a, s, h))
          | inr s ↦ elim (Bool-cases (in_album msg w)) [
            | inl i ↦
                rw (a, s, i)
                  (inr (
                    await_taken call msg w m.dedup i (accepts-IsKeyed call msg w.rt a).0
                      (rw (a, s, i) at h)))
            | inr i ↦ rw (a, s, i) (inl (queue_taken call msg w m.dedup (rw (a, s, i) at h)))
          ]
        ]
      ]

  enqueue_appends :
      (pick : Bool) (job : Job Entity) (t : RuntimeTask Entity)
      → (enqueue pick job t).1 ≡ true
      → ((enqueue pick job t).0.queue ≡ t.queue ++ job ∷ [])
        × ((enqueue pick job t).0.album_wait ≡ t.album_wait)
  unfolding enqueue
  enqueue_appends pick job t e = (ground (arith, e), ground (arith, e))

  -- The album has a waiter now: it had one, or its job is the last of the queue and waits on a new
  -- channel.
  abbrev pub HasWaiter : Bool → ℤ → ℕ → RuntimeTask Entity → RuntimeTask Entity → Type 0
  HasWaiter from_pull gid ch t t' =
      (lookup gid t'.album_wait ≡ some ch)
      × (((t'.queue ≡ t.queue) × (lookup gid t.album_wait ≡ some ch))
          ⊎ ((t'.queue ≡ t.queue ++ album from_pull gid ch ∷ [])
              × (lookup ch t'.chans ≡ some new_chan)))

  new_waits :
      (pick : Bool) (gid : ℤ) (from_pull : Bool) (t : RuntimeTask Entity) (ch : ℕ)
      → (add_waiter gid t.next_chan (enqueue pick (album from_pull gid t.next_chan) t)).1 ≡ some ch
      → HasWaiter from_pull gid ch t
          (add_waiter gid t.next_chan (enqueue pick (album from_pull gid t.next_chan) t)).0
  unfolding add_waiter enqueue
  new_waits pick gid from_pull t ch e =
      let a = lookup-insert gid gid t.next_chan t.album_wait in
      let b = same_refl gid in
      let c = lookup-insert t.next_chan t.next_chan (new_chan {Entity = Entity}) t.chans in
      let d = same_refl t.next_chan in
      (ground (arith, e, a, b), inr (ground (arith, e), ground (arith, e, c, d)))

  ensure_waits :
      (pick : Bool) (gid : ℤ) (from_pull : Bool) (t : RuntimeTask Entity) (ch : ℕ)
      → (ensure_album_waiter pick gid from_pull t).1 ≡ some ch
      → HasWaiter from_pull gid ch t (ensure_album_waiter pick gid from_pull t).0
  unfolding ensure_album_waiter add_waiter
  ensure_waits pick gid from_pull t ch e = elim (Bool-cases (eqb_ℤ gid (pos 0))) [
    | inl z ↦ absurd (ground (arith, e, z))
    | inr z ↦ elim (Option-cases (lookup gid t.album_wait)) [
      | inr (c, n) ↦
          rw (z, n, ensure_album_waiter)
            ((ground (arith, e, z, n)), inl (refl, ground (arith, e, z, n)))
      | inl n ↦
          (let same : ensure_album_waiter pick gid from_pull t
                ≡ add_waiter gid t.next_chan (enqueue pick (album from_pull gid t.next_chan) t) =
              ground (arith, z, n) in
            subst (λ (r : RuntimeTask Entity × Option ℕ). HasWaiter from_pull gid ch t r.0)
              (sym same)
              (new_waits pick gid from_pull t ch
                (sym (ap (λ (r : RuntimeTask Entity × Option ℕ). r.1) same) ∙ e)))
    ]
  ]

module _ {Entity : Type 0} (call : Arrival) (msg : Msg Entity) (w w' : World Entity) where
  -- The message is the last job of the queue; the albums are as they were.
  abbrev pub IsQueuedLast : Type 0
  IsQueuedLast =
      (w'.rt.queue ≡ w.rt.queue ++ single call.from_pull msg ∷ [])
      × (w'.rt.album_wait ≡ w.rt.album_wait)
      × (w'.grouper ≡ w.grouper)

  -- An album with a message of its ID is in the grouper, and has a waiter.
  abbrev pub IsInAlbum : Type 0
  IsInAlbum =
      (ch : ℕ) × (g : AlbumGrouper (Msg Entity)) × (group : AlbumGroup (Msg Entity)) × (w'.grouper
        ≡ some g)
      × (lookup (album_key w.rt.task_id msg.grouped_id) g.groups ≡ some group)
      × (has_id id_of msg.id group.msgs ≡ true)
      × HasWaiter call.from_pull msg.grouped_id ch w.rt w'.rt

  sent_last : IsSent call msg w w' → IsQueuedLast
  sent_last (a, b) =
      let (q, r) =
        enqueue_appends call.pick (single call.from_pull msg) w.rt
          (ap (λ (p : RuntimeTask Entity × Bool). p.1) a) in
      let t : (enqueue call.pick (single call.from_pull msg) w.rt).0 ≡ w'.rt =
        ap (λ (p : RuntimeTask Entity × Bool). p.0) a in
      (
        sym (ap (λ (x : RuntimeTask Entity). x.queue) t) ∙ q,
        sym (ap (λ (x : RuntimeTask Entity). x.album_wait) t) ∙ r,
        b,
      )

  given_album : IsGiven call msg w w' → IsInAlbum
  given_album (ch, g, a, b, c, t, n) =
      let (group, l, i) = added-IsHeld w.rt.task_id msg g t n in
      (
        ch,
        (add id_of w.rt.task_id msg.grouped_id msg g).grouper,
        group,
        c,
        l,
        i,
        subst (HasWaiter call.from_pull msg.grouped_id ch w.rt)
            (ap (λ (p : RuntimeTask Entity × Option ℕ). p.0) a)
            (ensure_waits call.pick msg.grouped_id call.from_pull w.rt ch
              (ap (λ (p : RuntimeTask Entity × Option ℕ). p.1) a)),
      )

module _ {Entity : Type 0} where
  -- A dispatch that answers `true` has appended the message to the queue as a job, and left the albums
  -- and waiters as they were; or the message's album is in the grouper with a message of its ID, and
  -- has a waiter: one that it had, with the queue as it was, or one whose job is the last of the queue
  -- and whose channel is open and empty.
  pub dispatch_taken :
      (call : Arrival) (msg : Msg Entity) (w : World Entity)
      → (dispatch call msg w).1 ≡ true
      → IsQueuedLast call msg w (dispatch call msg w).0
        ⊎ IsInAlbum call msg w (dispatch call msg w).0
  dispatch_taken call msg w h = elim (dispatch_steps call msg w h) [
    | inl x ↦ inl (sent_last call msg w (dispatch call msg w).0 x)
    | inr x ↦ inr (given_album call msg w (dispatch call msg w).0 x)
  ]
