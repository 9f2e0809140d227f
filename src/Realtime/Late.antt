-- ===== src/Realtime/Late.antt =====
-- The gap between the two locks of a dispatch, into which the timer of an album may fall.
use tgvive.Prelude.{
  ℕ, List, ◌≡◌, none, ◌∷◌, Option-cases, inl, some, arith, [], inr, ap, ◌<◌, true, ◌∙◌, ◌≢◌, length,
  nat_eq, subst, sym,
}
use tgvive.Prelude.{refl}
use tgvive.Realtime.Dispatch.{
  admit, deliver_each, fire_timer, see, queue_single, World, await_album, after_waiter, unsee,
  Arrival, grouping, accepts, in_album, add_to_album,
}
use tgvive.Realtime.{deliver_album, RuntimeTask, ensure_album_waiter, new_chan}
use tgvive.Prelude.Int.{ℤ, int_eq, pos}
use tgvive.Filter.{Msg}
use tgvive.Prelude.Map.{lookup, Map, delete, lookup-delete, same_refl}
use tgvive.Grouper.{
  fire, album_key, AlbumGrouper, AlbumGroup, has_id, album_key_eq, batch_of, AlbumKey,
}
use tgvive.Realtime.Live.{groups_of, groups_of-some}
use tgvive.Realtime.Waiters.{id_of}
use tgvive.Realtime.Replies.{accepts-IsKeyed}
use tgvive.Realtime.Taken.{grouper_of, added_world}
use tgvive.Realtime.Albums.{added-IsHeld}
use tgvive.Realtime.Firing.{fired, deliver_some, delivered_to}
use tgvive.Realtime.Runs.{fire_current, lookup-closed}

gone : (gid : ℤ) (wait : Map ℤ ℕ) → lookup gid (delete gid wait) ≡ none
gone gid wait = ground (arith, lookup-delete gid gid wait, same_refl gid)

module _ {Entity : Type 0} where
  -- A message for an album that has a waiter changes neither the task nor the albums yet.
  admit_again :
      (call : Arrival) (msg : Msg Entity) (w : World Entity) (ch : ℕ)
      → lookup msg.grouped_id w.rt.album_wait ≡ some ch
      → (admit call msg w).1 ≡ grouping
      → ((admit call msg w).0.rt ≡ w.rt) × ((admit call msg w).0.grouper ≡ w.grouper)
  unfolding admit see queue_single await_album after_waiter ensure_album_waiter unsee
  admit_again call msg w ch e h = ground (arith, e, h)

  -- A delivery to an album without a waiter.
  deliver_unheard :
      (gid : ℤ) (batches : List (List (Msg Entity))) (t : RuntimeTask Entity)
      → lookup gid t.album_wait ≡ none
      → deliver_each gid batches t ≡ t
  unfolding deliver_each deliver_album
  deliver_unheard gid [] t e = refl
  deliver_unheard gid (b ∷ bs) t e =
      let same : deliver_album gid b t ≡ t = ground (arith, e) in
      ap (deliver_each gid bs) same ∙ deliver_unheard gid bs t e

  fire_unheard :
      (gid : ℤ) (timer_id : ℕ) (w : World Entity)
      → lookup gid w.rt.album_wait ≡ none
      → (fire_timer gid timer_id w).rt ≡ w.rt
  unfolding fire_timer
  fire_unheard gid timer_id w e = elim (Option-cases w.grouper) [
    | inl n ↦ ground (arith, n)
    | inr (g, n) ↦
        ground
          (arith, n, deliver_unheard gid (fire (album_key w.rt.task_id gid) timer_id g).1 w.rt e)
  ]

  admit_ids :
      (call : Arrival) (msg : Msg Entity) (w : World Entity)
      → (admit call msg w).1 ≡ grouping
      → (0 < w.rt.task_id) × (msg.grouped_id ≢ pos 0)
  unfolding admit queue_single
  admit_ids call msg w h =
      let a : accepts call msg w.rt ≡ true = ground (arith, h) in
      let i : in_album msg w ≡ true = ground (arith, h) in
      ((accepts-IsKeyed call msg w.rt a).0, (grouper_of msg w i).1)

  abbrev pub IsHeldIn : Msg Entity → AlbumKey → Map AlbumKey (AlbumGroup (Msg Entity)) → Type 0
  IsHeldIn msg key groups =
      (group : AlbumGroup (Msg Entity)) × (lookup key groups ≡ some group)
      × (has_id id_of msg.id group.msgs ≡ true)

  -- Timers of one album, one after another.
  unfoldable pub fire_all : ℤ → List ℕ → World Entity → World Entity
  fire_all gid [] w = w
  fire_all gid (t ∷ ts) w = fire_all gid ts (fire_timer gid t w)

  fire_all_unheard :
      (gid : ℤ) (ts : List ℕ) (w : World Entity)
      → lookup gid w.rt.album_wait ≡ none
      → (fire_all gid ts w).rt ≡ w.rt
  unfolding fire_all
  fire_all_unheard gid [] w e = refl
  fire_all_unheard gid (t ∷ ts) w e =
      let same = fire_unheard gid t w e in
      fire_all_unheard gid ts (fire_timer gid t w)
        (ap (λ (k : RuntimeTask Entity). lookup gid k.album_wait) same ∙ e)
      ∙ same

  -- The message stands in an album, the waiter's channel was closed without it, and whichever timers
  -- of the album fire then, they change nothing of the task.
  abbrev pub IsLost : Msg Entity → ℕ → List (Msg Entity) → World Entity → Type 0
  IsLost msg ch batch w =
      (lookup ch w.rt.chans ≡ some (record { batch = some batch; closed = true }))
      × ((ts : List ℕ) → (fire_all msg.grouped_id ts w).rt ≡ w.rt)
      × IsHeldIn msg (album_key w.rt.task_id msg.grouped_id) (groups_of w)

  IsLost-between :
      (msg : Msg Entity) (w : World Entity) (g : AlbumGrouper (Msg Entity)) (ch : ℕ)
      (group : AlbumGroup (Msg Entity))
      → w.grouper ≡ some g
      → 0 < w.rt.task_id
      → msg.grouped_id ≢ pos 0
      → 0 < length group.msgs
      → lookup ch w.rt.chans ≡ some new_chan
      → lookup msg.grouped_id w.rt.album_wait ≡ some ch
      → lookup (album_key w.rt.task_id msg.grouped_id) g.groups ≡ some group
      → IsLost msg ch group.msgs (add_to_album msg (fire_timer msg.grouped_id group.timer_id w))
  IsLost-between msg w g ch group e t n p c a l =
      let gid = msg.grouped_id in
      let key = album_key w.rt.task_id gid in
      let left = record g { groups = delete key g.groups } in
      let w2 = fire_timer gid group.timer_id w in
      let (b, d) =
        fired gid group.timer_id w g left (batch_of group.msgs) e (fire_current key group g l) in
      let r = b ∙ deliver_some gid ch w.rt group.msgs a p in
      let same : w2.rt.task_id ≡ w.rt.task_id = ap (λ (x : RuntimeTask Entity). x.task_id) r in
      let t2 : 0 < w2.rt.task_id = subst (λ k. 0 < k) (sym same) t in
      let (x, y) = added_world msg w2 left d t2 n in
      let w3 = add_to_album msg w2 in
      let r3 : w3.rt ≡ delivered_to gid ch group.msgs w.rt = x ∙ r in
      let free : lookup gid w3.rt.album_wait ≡ none =
        ap (λ (k : RuntimeTask Entity). lookup gid k.album_wait) r3 ∙ gone gid w.rt.album_wait in
      (
        ap (λ (k : RuntimeTask Entity). lookup ch k.chans) r3
            ∙ lookup-closed group.msgs ch w.rt.chans c,
        λ ts. fire_all_unheard gid ts w3 free,
        subst (λ k. IsHeldIn msg (album_key k gid) (groups_of w3))
            (sym (ap (λ (q : RuntimeTask Entity). q.task_id) x))
            (subst (λ gs. IsHeldIn msg (album_key w2.rt.task_id gid) gs)
              (sym (groups_of-some w3 _ y)) (added-IsHeld w2.rt.task_id msg left t2 n)),
      )

  -- A message of an album that has a waiter is accepted; before it is added to the album the album's
  -- timer fires. Then the album holds the message, the job gets the batch without it, and the timers
  -- of the album, however many fire next, bring nothing to the task, as long as no other message of
  -- the album is dispatched.
  pub late_message-IsLost :
      (call : Arrival) (msg : Msg Entity) (w : World Entity) (g : AlbumGrouper (Msg Entity))
      (ch : ℕ) (group : AlbumGroup (Msg Entity))
      → w.grouper ≡ some g
      → 0 < length group.msgs
      → lookup ch w.rt.chans ≡ some new_chan
      → lookup msg.grouped_id w.rt.album_wait ≡ some ch
      → lookup (album_key w.rt.task_id msg.grouped_id) g.groups ≡ some group
      → (admit call msg w).1 ≡ grouping
      → IsLost msg ch group.msgs
          (add_to_album msg (fire_timer msg.grouped_id group.timer_id (admit call msg w).0))
  late_message-IsLost call msg w g ch group e p c a l h =
      let w1 = (admit call msg w).0 in
      let (r, q) = admit_again call msg w ch a h in
      let (t, n) = admit_ids call msg w h in
      IsLost-between msg w1 g ch group (q ∙ e)
        (subst (λ (k : RuntimeTask Entity). 0 < k.task_id) (sym r) t) n p
        (subst (λ (k : RuntimeTask Entity). lookup ch k.chans ≡ some new_chan) (sym r) c)
        (subst (λ (k : RuntimeTask Entity). lookup msg.grouped_id k.album_wait ≡ some ch) (sym r) a)
        (subst
          (λ (k : RuntimeTask Entity).
            lookup (album_key k.task_id msg.grouped_id) g.groups ≡ some group)
          (sym r) l)
