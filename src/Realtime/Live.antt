-- ===== src/Realtime/Live.antt =====
-- The waiters and the albums after the steps of a dispatch.
use tgvive.Prelude.{
  ℕ, Bool, ◌≡◌, ◌<◌, some, Bool-cases, ◌≢◌, inr, ◌||◌, subst, none, refl, [], not, sym, inl, ltb,
  Option-cases, length, ◌&&◌, arith, if◌then◌else◌, Option, false, ◌∙◌, ◌++◌, ◌∷◌, true, List, ◌⊎◌,
  suc, zero,
}
use tgvive.Realtime.Dispatch.{World, Arrival, add_to_album, in_album}
use tgvive.Realtime.{RuntimeTask, enqueue, ensure_album_waiter, add_waiter, Job, album, queue_size}
use tgvive.Filter.{Msg}
use tgvive.Prelude.Map.{Map, lookup}
use tgvive.Grouper.{AlbumGrouper, AlbumKey, AlbumGroup, add}
use tgvive.Prelude.Int.{ℤ, pos, eqb_ℤ, eqb_ℤ_iff, int_eq}
use tgvive.Realtime.Waiters.{IsLive, HasAlbum, id_of, keep_albums, new_waiter}
use tgvive.Realtime.Replies.{ensure_refused}
use tgvive.Realtime.Taken.{grouper_of, added_world}
use tgvive.Realtime.Albums.{added-IsHeld, has_id-length, added_others}
use tgvive.Realtime.Happenings.{goes_to_album, await_step, pick_out, add_picked, begin_adding}

module _ {Entity : Type 0} where
  unfoldable pub groups_of : World Entity → Map AlbumKey (AlbumGroup (Msg Entity))
  groups_of w = elim w.grouper [ none ↦ [] | some g ↦ g.groups ]

  unfoldable pub is_added : ℤ → List (Msg Entity) → Bool
  is_added gid [] = false
  is_added gid (msg ∷ rest) = eqb_ℤ gid msg.grouped_id || is_added gid rest

  -- An album will be delivered: the grouper holds it, or a message is still to be added to it.
  abbrev pub Comes : ℕ → Map AlbumKey (AlbumGroup (Msg Entity)) → List (Msg Entity) → ℤ → Type 0
  Comes task groups adding gid = HasAlbum task gid groups ⊎ (is_added gid adding ≡ true)

  abbrev pub IsLiveTask :
      RuntimeTask Entity → Map AlbumKey (AlbumGroup (Msg Entity)) → List (Msg Entity) → Type 0
  IsLiveTask t groups adding =
      IsLive t.album_wait t.chans t.next_chan (Comes t.task_id groups adding)

  abbrev pub IsLiveWorld : World Entity → Type 0
  IsLiveWorld w = IsLiveTask w.rt (groups_of w) w.adding

  -- What does not change the waiters keeps the invariant.
  pub live_fields :
      (t t' : RuntimeTask Entity) (groups : Map AlbumKey (AlbumGroup (Msg Entity)))
      (adding : List (Msg Entity))
      → t'.task_id ≡ t.task_id
      → t'.album_wait ≡ t.album_wait
      → t'.chans ≡ t.chans
      → t'.next_chan ≡ t.next_chan
      → IsLiveTask t groups adding
      → IsLiveTask t' groups adding
  live_fields t t' groups adding a b c d v = rw (a, b, c, d) v

  own_album :
      (task : ℕ) (msg : Msg Entity) (g : AlbumGrouper (Msg Entity))
      → 0 < task
      → msg.grouped_id ≢ pos 0
      → (gid : ℤ) → eqb_ℤ gid msg.grouped_id ≡ true
      → HasAlbum task gid (add id_of task msg.grouped_id msg g).grouper.groups
  own_album task msg g t n gid q =
      let (group', e', i) = added-IsHeld task msg g t n in
      subst (λ i. HasAlbum task i (add id_of task msg.grouped_id msg g).grouper.groups)
        (sym ((eqb_ℤ_iff gid msg.grouped_id).0 q)) (group', e', has_id-length msg.id group'.msgs i)

  -- The albums of the task are kept when a message is added to one of them.
  added_keeps :
      (task : ℕ) (msg : Msg Entity) (g : AlbumGrouper (Msg Entity))
      → 0 < task
      → msg.grouped_id ≢ pos 0
      → (gid : ℤ) → HasAlbum task gid g.groups
      → HasAlbum task gid (add id_of task msg.grouped_id msg g).grouper.groups
  added_keeps task msg g t n gid (group, e, l) = elim (Bool-cases (eqb_ℤ gid msg.grouped_id)) [
    | inl q ↦ own_album task msg g t n gid q
    | inr q ↦
        (let d : gid ≢ msg.grouped_id = ground (arith, q, eqb_ℤ_iff gid msg.grouped_id) in
          (group, added_others task msg g t n gid d ∙ e, l))
  ]

  goes_tests :
      (msg : Msg Entity) (w : World Entity)
      → goes_to_album msg w ≡ true
      → (0 < w.rt.task_id) × (in_album msg w ≡ true)
  unfolding goes_to_album
  goes_tests msg w q = (ground (arith, q), ground (arith, q))

  added-adding : (msg : Msg Entity) (w : World Entity) → (add_to_album msg w).adding ≡ w.adding
  unfolding add_to_album
  added-adding msg w = ground arith

  added_whole :
      (msg : Msg Entity) (w : World Entity) (g : AlbumGrouper (Msg Entity))
      → w.grouper ≡ some g
      → 0 < w.rt.task_id
      → msg.grouped_id ≢ pos 0
      → ((add_to_album msg w).rt ≡ w.rt)
        × ((add_to_album msg w).grouper
            ≡ some (add id_of w.rt.task_id msg.grouped_id msg g).grouper)
        × ((add_to_album msg w).adding ≡ w.adding)
  added_whole msg w g e t n = let (a, b) = added_world msg w g e t n in (a, b, added-adding msg w)

  pub queue_live :
      (pick : Bool) (job : Job Entity) (t : RuntimeTask Entity)
      (groups : Map AlbumKey (AlbumGroup (Msg Entity))) (adding : List (Msg Entity))
      → IsLiveTask t groups adding
      → IsLiveTask (enqueue pick job t).0 groups adding
  unfolding enqueue
  queue_live pick job t groups adding v =
      live_fields t (enqueue pick job t).0 groups adding (ground arith) (ground arith)
        (ground arith) (ground arith) v

  waiter_live :
      (pick : Bool) (gid : ℤ) (job : Job Entity) (t : RuntimeTask Entity)
      (groups : Map AlbumKey (AlbumGroup (Msg Entity))) (adding : List (Msg Entity))
      → IsLiveTask t groups adding
      → lookup gid t.album_wait ≡ none
      → Comes t.task_id groups adding gid
      → IsLiveTask (add_waiter gid t.next_chan (enqueue pick job t)).0 groups adding
  unfolding enqueue add_waiter
  waiter_live pick gid job t groups adding v n h =
      elim (t.ctx_over || not (ltb (length t.queue) queue_size) || (t.is_done && not pick))
        as (λ b.
          IsLiveTask
            (add_waiter gid t.next_chan (
              if b
              then (t, false)
              else (record t { queue = t.queue ++ job ∷ []; to_count = suc t.to_count }, true))).0
            groups adding) [
              | true ↦ v
              | false ↦
                  new_waiter t.album_wait t.chans t.next_chan (Comes t.task_id groups adding) v gid
                    n h
            ]

  ensure_live :
      (pick : Bool) (gid : ℤ) (from_pull : Bool) (t : RuntimeTask Entity)
      (groups : Map AlbumKey (AlbumGroup (Msg Entity))) (adding : List (Msg Entity))
      → IsLiveTask t groups adding
      → Comes t.task_id groups adding gid
      → IsLiveTask (ensure_album_waiter pick gid from_pull t).0 groups adding
  unfolding ensure_album_waiter
  ensure_live pick gid from_pull t groups adding v h = elim (Bool-cases (eqb_ℤ gid (pos 0))) [
    | inl q ↦ rw q v
    | inr q ↦ elim (Option-cases (lookup gid t.album_wait)) [
      | inl n ↦
          rw (q, n) (waiter_live pick gid (album from_pull gid t.next_chan) t groups adding v n h)
      | inr (c, n) ↦ rw (q, n) v
    ]
  ]

  -- A task and albums that are given by equations.
  pub live_of :
      (w : World Entity) (t : RuntimeTask Entity) (groups : Map AlbumKey (AlbumGroup (Msg Entity)))
      (adding : List (Msg Entity))
      → w.rt ≡ t
      → groups_of w ≡ groups
      → w.adding ≡ adding
      → IsLiveTask t groups adding
      → IsLiveWorld w
  live_of w t groups adding e g a v =
      subst (λ r. IsLiveTask r (groups_of w) w.adding) (sym e)
        (subst (λ k. IsLiveTask t k w.adding) (sym g)
          (subst (λ l. IsLiveTask t groups l) (sym a) v))

  pub groups_of-some :
      (w : World Entity) (g : AlbumGrouper (Msg Entity))
      → w.grouper ≡ some g
      → groups_of w ≡ g.groups
  unfolding groups_of
  groups_of-some w g e = rw e refl

  is_added-head :
      (msg : Msg Entity) (rest : List (Msg Entity)) → is_added msg.grouped_id (msg ∷ rest) ≡ true
  unfolding is_added
  is_added-head msg rest = ground (arith, eqb_ℤ_iff msg.grouped_id msg.grouped_id)

  is_added-tail :
      (gid : ℤ) (msg : Msg Entity) (rest : List (Msg Entity))
      → is_added gid rest ≡ true
      → is_added gid (msg ∷ rest) ≡ true
  unfolding is_added
  is_added-tail gid msg rest e = ground (arith, e)

  -- The step that sees to a waiter, for a message that is still to be added then.
  pub await_live :
      (call : Arrival) (msg : Msg Entity) (w : World Entity)
      → IsLiveWorld w
      → IsLiveWorld (await_step call msg w)
  unfolding await_step begin_adding groups_of
  await_live call msg w v = elim (Bool-cases (goes_to_album msg w)) [
    | inr q ↦ rw q v
    | inl q ↦ rw q (
        go (ensure_album_waiter call.pick msg.grouped_id call.from_pull w.rt).0
          (ensure_album_waiter call.pick msg.grouped_id call.from_pull w.rt).1
          (ensure_refused call.pick msg.grouped_id call.from_pull w.rt) after)
  ]
    where
      after :
          IsLiveTask
            (ensure_album_waiter call.pick msg.grouped_id call.from_pull w.rt).0
            (groups_of w)
            (msg ∷ w.adding)
      after =
          ensure_live call.pick msg.grouped_id call.from_pull w.rt (groups_of w) (msg ∷ w.adding)
            (keep_albums w.rt.album_wait w.rt.chans w.rt.next_chan
              (Comes w.rt.task_id (groups_of w) w.adding) v
              (Comes w.rt.task_id (groups_of w) (msg ∷ w.adding))
              (λ gid ch e h. elim h [
                | inl x ↦ inl x
                | inr x ↦ inr (is_added-tail gid msg w.adding x)
              ]))
            (inr (is_added-head msg w.adding))

      go :
          (t : RuntimeTask Entity) (o : Option ℕ)
          → (o ≡ none → t ≡ w.rt)
          → IsLiveTask t (groups_of w) (msg ∷ w.adding)
          → IsLiveWorld (begin_adding msg w (t, o))
      go t none k u = subst (λ r. IsLiveTask r (groups_of w) w.adding) (sym (k refl)) v
      go t (some ch) k u = u

  pick_out-is_added :
      (n : ℕ) (adding : List (Msg Entity)) (msg : Msg Entity) (rest : List (Msg Entity)) (gid : ℤ)
      → pick_out n adding ≡ some (msg, rest)
      → is_added gid adding ≡ (eqb_ℤ gid msg.grouped_id || is_added gid rest)
  unfolding pick_out is_added
  pick_out-is_added n [] msg rest gid e = absurd (cc)
  pick_out-is_added zero (x ∷ xs) msg rest gid e = ground (arith, e)
  pick_out-is_added (suc n) (x ∷ xs) msg rest gid e = elim (Option-cases (pick_out n xs)) [
    | inl p ↦ absurd (ground (arith, e, p))
    | inr ((y, ys), p) ↦ let ih = pick_out-is_added n xs y ys gid p in ground (arith, ih, rw p at e)
  ]

  -- The step that adds a message to its album.
  pub add_live :
      (n : ℕ) (w : World Entity) → IsLiveWorld w → IsLiveWorld (add_picked (pick_out n w.adding) w)
  unfolding add_picked
  add_live n w v = elim (Option-cases (pick_out n w.adding)) [
    | inl p ↦ rw p v
    | inr ((msg, rest), p) ↦ rw p (elim (Bool-cases (goes_to_album msg w)) [
      | inr q ↦ rw q v
      | inl q ↦ rw q (
          let u = record w { adding = rest } in
          let (t, i) = goes_tests msg w q in
          let ((g, e), z) = grouper_of msg w i in
          let added = add id_of w.rt.task_id msg.grouped_id msg g in
          let (a, b, c) = added_whole msg u g e t z in
          let groups = subst (λ k. IsLiveTask w.rt k w.adding) (groups_of-some w g e) v in
          live_of (add_to_album msg u) w.rt added.grouper.groups rest a
            (groups_of-some (add_to_album msg u) added.grouper b) c
            (keep_albums w.rt.album_wait w.rt.chans w.rt.next_chan
              (Comes w.rt.task_id g.groups w.adding) groups
              (Comes w.rt.task_id added.grouper.groups rest)
              (λ gid ch l h. elim h [
                | inl x ↦ inl (added_keeps w.rt.task_id msg g t z gid x)
                | inr x ↦ elim (Bool-cases (eqb_ℤ gid msg.grouped_id)) [
                  | inl y ↦ inl (own_album w.rt.task_id msg g t z gid y)
                  | inr y ↦ inr (ground (arith, y, x, pick_out-is_added n w.adding msg rest gid p))
                ]
              ])))
    ])
  ]
