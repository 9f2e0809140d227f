-- ===== src/Realtime/Albums.antt =====
-- The album of a message that the grouper is given, and the other albums.
use tgvive.Prelude.{
  ℕ, List, ◌≡◌, ◌<◌, ◌++◌, true, ◌≢◌, ◌∷◌, length, Option-cases, [], arith, some, inl, inr, eqb,
  ◌||◌, false, Bool-cases, refl,
}
use tgvive.Grouper.{
  has_id, AlbumGrouper, AlbumKey, is_duplicate, group_at, AlbumGroup, album_key, next_seq, add,
  add_to, album_key_eq,
}
use tgvive.Filter.{Msg}
use tgvive.Prelude.Int.{ℤ, pos, eqb_ℤ_iff, eqb_ℤ}
use tgvive.Realtime.Waiters.{id_of}
use tgvive.Prelude.Map.{Map, lookup, lookup-insert, same_refl}

module _ {Entity : Type 0} where
  has_id-append :
      (i : ℤ) (msgs : List (Msg Entity)) (msg : Msg Entity)
      → msg.id ≡ i
      → has_id id_of i (msgs ++ msg ∷ []) ≡ true
  unfolding has_id
  has_id-append i [] msg e = ground (arith, e, eqb_ℤ_iff msg.id i)
  has_id-append i (m ∷ msgs) msg e = ground (arith, has_id-append i msgs msg e)

  pub has_id-length :
      (i : ℤ) (msgs : List (Msg Entity)) → has_id id_of i msgs ≡ true → 0 < length msgs
  unfolding has_id
  has_id-length i [] e = cc
  has_id-length i (m ∷ msgs) e = omega arith

module _ {Entity : Type 0} (task : ℕ) (msg : Msg Entity) (g : AlbumGrouper (Msg Entity)) where
  -- The album that a message belongs to holds a message with its ID.
  abbrev pub IsHeld : AlbumKey → Map AlbumKey (AlbumGroup (Msg Entity)) → Type 0
  IsHeld key groups =
      (group : AlbumGroup (Msg Entity)) × (lookup key groups ≡ some group)
      × (has_id id_of msg.id group.msgs ≡ true)

  duplicate-IsHeld :
      (key : AlbumKey)
      → is_duplicate id_of msg (group_at key g.groups).msgs ≡ true
      → IsHeld key g.groups
  unfolding is_duplicate group_at has_id
  duplicate-IsHeld key e = elim (Option-cases (lookup key g.groups)) [
    | inl n ↦ absurd (ground (arith, n, e))
    | inr (group, n) ↦ (group, n, ground (arith, n, e))
  ]

  module _ (t : 0 < task) (n : msg.grouped_id ≢ pos 0) where
    abbrev key : AlbumKey
    key = album_key task msg.grouped_id

    abbrev grown_group : AlbumGroup (Msg Entity)
    grown_group = record { timer_id = next_seq g; msgs = (group_at key g.groups).msgs ++ msg ∷ [] }

    pub added-IsHeld : IsHeld key (add id_of task msg.grouped_id msg g).grouper.groups
    unfolding add add_to
    added-IsHeld =
        let u : (eqb task 0 || eqb_ℤ msg.grouped_id (pos 0)) ≡ false =
          ground (arith, n, eqb_ℤ_iff msg.grouped_id (pos 0)) in
        elim (Bool-cases (is_duplicate id_of msg (group_at key g.groups).msgs)) [
          | inl e ↦ rw (u, e) (duplicate-IsHeld key e)
          | inr e ↦
              rw (u, e)
                (
                  grown_group,
                  ground (arith, lookup-insert key key grown_group g.groups, same_refl key),
                  has_id-append msg.id (group_at key g.groups).msgs msg refl,
                )
        ]

    pub added_others :
        (gid : ℤ)
        → gid ≢ msg.grouped_id
        → lookup (album_key task gid) (add id_of task msg.grouped_id msg g).grouper.groups
          ≡ lookup (album_key task gid) g.groups
    unfolding add add_to
    added_others gid d = ground (
      arith,
      lookup-insert (album_key task gid) key grown_group g.groups,
      eqb_ℤ_iff msg.grouped_id gid,
      d,
    )

    pub added_flushed : (add id_of task msg.grouped_id msg g).flushed ≡ []
    unfolding add add_to
    added_flushed = ground (arith, t, n, eqb_ℤ_iff msg.grouped_id (pos 0))
