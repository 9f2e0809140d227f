-- ===== src/Realtime/Firing.antt =====
-- A timer that fires: the album that leaves the grouper, and what its delivery does to the waiters.
use tgvive.Prelude.{
  ℕ, List, ◌∷◌, [], Option-cases, ◌≡◌, inl, ◌⊎◌, some, arith, inr, subst, Bool-cases, eqb, ◌∙◌,
  none, ◌<◌, ◌≢◌, sym, length, nat_eq,
}
use tgvive.Realtime.Dispatch.{World, fire_timer, deliver_each}
use tgvive.Realtime.{RuntimeTask, deliver_album, close_album}
use tgvive.Prelude.Int.{ℤ, int_eq, eqb_ℤ_iff, eqb_ℤ}
use tgvive.Filter.{Msg}
use tgvive.Realtime.Live.{IsLiveWorld, live_of, IsLiveTask, groups_of-some, Comes}
use tgvive.Grouper.{fire, AlbumGrouper, AlbumKey, batch_of, AlbumGroup, album_key, album_key_eq}
use tgvive.Prelude.Map.{lookup, Map, delete, lookup-delete}
use tgvive.Realtime.Waiters.{HasAlbum, keep_albums, close_waiter}
use tgvive.Prelude.{refl}

module _ {Entity : Type 0} where
  -- A timer is out of date, or it takes its album out of the grouper.
  fire_cases :
      (key : AlbumKey) (timer_id : ℕ) (g : AlbumGrouper (Msg Entity))
      → (fire key timer_id g ≡ (g, []))
        ⊎ ((group : AlbumGroup (Msg Entity)) × (lookup key g.groups ≡ some group)
            × (fire key timer_id g
                ≡ (record g { groups = delete key g.groups }, batch_of group.msgs)))
  unfolding fire
  fire_cases key timer_id g = elim (Option-cases (lookup key g.groups)) [
    | inl e ↦ inl (ground (arith, e))
    | inr (group, e) ↦ elim (Bool-cases (eqb group.timer_id timer_id)) [
      | inl q ↦ inr (group, e, ground (arith, e, q))
      | inr q ↦ inl (ground (arith, e, q))
    ]
  ]

  pub fired :
      (gid : ℤ) (timer_id : ℕ) (w : World Entity) (g g' : AlbumGrouper (Msg Entity))
      (batches : List (List (Msg Entity)))
      → w.grouper ≡ some g
      → fire (album_key w.rt.task_id gid) timer_id g ≡ (g', batches)
      → ((fire_timer gid timer_id w).rt ≡ deliver_each gid batches w.rt)
        × ((fire_timer gid timer_id w).grouper ≡ some g')
  unfolding fire_timer
  fired gid timer_id w g g' batches e f = ground (arith, e, f)

  deliver_none :
      (gid : ℤ) (t : RuntimeTask Entity) (msgs : List (Msg Entity))
      → lookup gid t.album_wait ≡ none
      → deliver_each gid (batch_of msgs) t ≡ t
  unfolding deliver_album deliver_each batch_of
  deliver_none gid t [] e = refl
  deliver_none gid t (m ∷ ms) e = ground (arith, e)

  abbrev pub delivered_to : ℤ → ℕ → List (Msg Entity) → RuntimeTask Entity → RuntimeTask Entity
  delivered_to gid ch msgs t = record t {
    album_wait = delete gid t.album_wait;
    chans = close_album (some msgs) ch t.chans;
  }

  pub deliver_some :
      (gid : ℤ) (ch : ℕ) (t : RuntimeTask Entity) (msgs : List (Msg Entity))
      → lookup gid t.album_wait ≡ some ch
      → 0 < length msgs
      → deliver_each gid (batch_of msgs) t ≡ delivered_to gid ch msgs t
  unfolding deliver_album deliver_each batch_of
  deliver_some gid ch t [] e l = absurd (omega arith)
  deliver_some gid ch t (m ∷ ms) e l = ground (arith, e)

  -- The albums that stay when one leaves the grouper.
  other_album :
      (task : ℕ) (gid other : ℤ) (groups : Map AlbumKey (AlbumGroup (Msg Entity)))
      → other ≢ gid
      → HasAlbum task other groups
      → HasAlbum task other (delete (album_key task gid) groups)
  other_album task gid other groups d (group, e, l) = (
    group,
    ground (
      arith,
      lookup-delete (album_key task other) (album_key task gid) groups,
      eqb_ℤ_iff gid other,
      e,
      d,
    ),
    l,
  )

  deliver_empty :
      (gid : ℤ) (t : RuntimeTask Entity) (msgs : List (Msg Entity))
      → length msgs ≡ 0
      → deliver_each gid (batch_of msgs) t ≡ t
  unfolding deliver_each batch_of
  deliver_empty gid t [] e = refl
  deliver_empty gid t (m ∷ ms) e = absurd (omega (arith, e))

  -- The other albums still come when one leaves the grouper.
  other-Comes :
      (task : ℕ) (gid other : ℤ) (groups : Map AlbumKey (AlbumGroup (Msg Entity)))
      (adding : List (Msg Entity))
      → other ≢ gid
      → Comes task groups adding other
      → Comes task (delete (album_key task gid) groups) adding other
  other-Comes task gid other groups adding d (inl h) = inl (other_album task gid other groups d h)
  other-Comes task gid other groups adding d (inr h) = inr h

  -- The delivery of an album that leaves the grouper.
  deliver_live :
      (gid : ℤ) (t : RuntimeTask Entity) (group : AlbumGroup (Msg Entity))
      (groups : Map AlbumKey (AlbumGroup (Msg Entity))) (adding : List (Msg Entity))
      → IsLiveTask t groups adding
      → lookup (album_key t.task_id gid) groups ≡ some group
      → IsLiveTask
          (deliver_each gid (batch_of group.msgs) t)
          (delete (album_key t.task_id gid) groups)
          adding
  deliver_live gid t group groups adding v e =
      let gone = delete (album_key t.task_id gid) groups in
      let kept =
        λ (h : (g : ℤ) (ch : ℕ)
            → lookup g t.album_wait ≡ some ch
            → Comes t.task_id groups adding g
            → Comes t.task_id gone adding g).
          keep_albums t.album_wait t.chans t.next_chan (Comes t.task_id groups adding) v
            (Comes t.task_id gone adding) h in
      elim (Option-cases (lookup gid t.album_wait)) [
        | inl n ↦
            subst (λ r. IsLiveTask r gone adding) (sym (deliver_none gid t group.msgs n))
              (kept (λ g ch f h.
                other-Comes t.task_id gid g groups adding (λ q. absurd (ground (arith, q, f, n)))
                  h))
        | inr (ch, n) ↦ elim (Bool-cases (eqb (length group.msgs) 0)) [
          | inr l ↦
              subst (λ r. IsLiveTask r gone adding)
                (sym (deliver_some gid ch t group.msgs n (ground (arith, l))))
                (close_waiter t.album_wait t.chans t.next_chan (Comes t.task_id groups adding) v gid
                  ch (some group.msgs) (Comes t.task_id gone adding) n
                  (λ g d h. other-Comes t.task_id gid g groups adding d h))
          | inl l ↦
              subst (λ r. IsLiveTask r gone adding)
                (sym (deliver_empty gid t group.msgs (ground (arith, l))))
                (kept (λ g c f h. elim (Bool-cases (eqb_ℤ g gid)) [
                  | inr q ↦
                      other-Comes t.task_id gid g groups adding (ground (arith, q, eqb_ℤ_iff g gid))
                        h
                  | inl q ↦ elim h [
                    | inr x ↦ inr x
                    | inl (group', e', l') ↦
                        absurd (ground (arith, q, eqb_ℤ_iff g gid, e, e', l, l'))
                  ]
                ]))
        ]
      ]

  deliver_each_nil : (gid : ℤ) (t : RuntimeTask Entity) → deliver_each gid [] t ≡ t
  unfolding deliver_each
  deliver_each_nil gid t = refl

  fire_idle :
      (gid : ℤ) (timer_id : ℕ) (w : World Entity) → w.grouper ≡ none → fire_timer gid timer_id w ≡ w
  unfolding fire_timer
  fire_idle gid timer_id w e = ground (arith, e)

  fire-adding :
      (gid : ℤ) (timer_id : ℕ) (w : World Entity) → (fire_timer gid timer_id w).adding ≡ w.adding
  unfolding fire_timer
  fire-adding gid timer_id w = ground arith

  pub fire_live :
      (gid : ℤ) (timer_id : ℕ) (w : World Entity)
      → IsLiveWorld w
      → IsLiveWorld (fire_timer gid timer_id w)
  fire_live gid timer_id w v =
      let w' = fire_timer gid timer_id w in
      let same = fire-adding gid timer_id w in
      elim (Option-cases w.grouper) [
        | inl e ↦ subst IsLiveWorld (sym (fire_idle gid timer_id w e)) v
        | inr (g, e) ↦
            (let u = subst (λ k. IsLiveTask w.rt k w.adding) (groups_of-some w g e) v in
              elim (fire_cases (album_key w.rt.task_id gid) timer_id g) [
                | inl f ↦
                    (let (a, b) = fired gid timer_id w g g [] e f in
                      live_of w' w.rt g.groups w.adding (a ∙ deliver_each_nil gid w.rt)
                        (groups_of-some w' g b) same u)
                | inr (group, l, f) ↦
                    (let (a, b) = fired gid timer_id w g _ _ e f in
                      live_of w' (deliver_each gid (batch_of group.msgs) w.rt)
                        (delete (album_key w.rt.task_id gid) g.groups) w.adding a
                        (groups_of-some w' _ b) same
                        (deliver_live gid w.rt group g.groups w.adding u l))
              ])
      ]
