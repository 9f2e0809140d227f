-- ===== src/Grouper/Timers.antt =====
-- Which timer flushes an album: the one that the last message has started.
use tgvive.Prelude.Int.{ℤ, pos, eqb_ℤ_iff}
use tgvive.Grouper.{
  batch_of, add, fire, add_to, next_seq, AlbumGrouper, album_key, group_at, is_duplicate,
  album_key_eq, AlbumGroup,
}
use tgvive.Prelude.{
  List, ◌++◌, ℕ, ◌∷◌, [], ◌≢◌, ◌≡◌, refl, false, ◌≤◌, some, suc, arith, ◌<◌, ◌^◌, none,
}
use tgvive.Prelude.Map.{insert, lookup, lookup-insert, lookup-delete, same_refl}

module _ {Msg : Type 0} (id_of : Msg → ℤ) where
  appended : (xs : List Msg) (x : Msg) → batch_of (xs ++ x ∷ []) ≡ (xs ++ x ∷ []) ∷ []
  unfolding batch_of
  appended [] x = refl
  appended (y ∷ ys) x = refl

  -- A message that is no duplicate is put at the end of its group, under the next timer.
  pub add_fresh :
      (task_id : ℕ) (grouped_id : ℤ) (msg : Msg) (g : AlbumGrouper Msg)
      → task_id ≢ 0
      → grouped_id ≢ pos 0
      → let key = album_key task_id grouped_id in
        let held = (group_at key g.groups).msgs in
        is_duplicate id_of msg held ≡ false
        → add id_of task_id grouped_id msg g ≡ record {
          grouper = record g {
            seq = next_seq g;
            groups =
                insert key (record { timer_id = next_seq g; msgs = held ++ msg ∷ [] }) g.groups;
          };
          flushed = [];
          timer = some (key, next_seq g);
        }
  unfolding add add_to
  add_fresh task_id grouped_id msg g ht hg fresh =
      ground (arith, fresh, ht, hg, eqb_ℤ_iff grouped_id (pos 0))

  -- After a message that is not a duplicate has come for an album, a timer that an earlier message
  -- started changes nothing and flushes nothing, and the new timer flushes all the messages that the
  -- album held, in their order, and the new one last, and leaves no group of the album; as long as
  -- the number of timers has not wrapped.
  pub fire-add :
      (task_id : ℕ) (grouped_id : ℤ) (msg : Msg) (g : AlbumGrouper Msg) (old : ℕ)
      → task_id ≢ 0
      → grouped_id ≢ pos 0
      → let key = album_key task_id grouped_id in
        let held = (group_at key g.groups).msgs in
        let after = (add id_of task_id grouped_id msg g).grouper in
        is_duplicate id_of msg held ≡ false
        → old ≤ g.seq
        → suc g.seq < 2 ^ 64
        → (fire key old after ≡ (after, []))
          × ((add id_of task_id grouped_id msg g).timer ≡ some (key, next_seq g))
          × ((fire key (next_seq g) after).1 ≡ (held ++ msg ∷ []) ∷ [])
          × (lookup key (fire key (next_seq g) after).0.groups ≡ none)
  unfolding fire next_seq
  fire-add task_id grouped_id msg g old ht hg fresh le small =
      let key = album_key task_id grouped_id in
      let held = (group_at key g.groups).msgs in
      let group : AlbumGroup Msg = record { timer_id = next_seq g; msgs = held ++ msg ∷ [] } in
      let found = lookup-insert key key group g.groups in
      let gone = lookup-delete key key (insert key group g.groups) in
      let number : next_seq g ≡ suc g.seq = omega arith in
      rw (add_fresh task_id grouped_id msg g ht hg fresh)
        (ground (arith, found, gone, number, appended held msg, same_refl key))
