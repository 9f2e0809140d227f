-- ===== src/Realtime/Waiters.antt =====
-- The waiters of albums: what binds them to their channels and to the albums of the grouper.
use tgvive.Prelude.{
  ℕ, List, ◌≡◌, some, suc, none, ◌<◌, nat_eq, length, false, arith, Option, ◌≢◌, Bool-cases, inl,
  subst, inr, eqb, true,
}
use tgvive.Prelude.Map.{Map, insert, lookup, lookup-insert, delete, same_refl, lookup-delete}
use tgvive.Filter.{Msg}
use tgvive.Grouper.{AlbumKey, AlbumGroup, album_key, album_key_eq}
use tgvive.Realtime.{new_chan, AlbumChan, close_album, close_with}
use tgvive.Prelude.Int.{ℤ, int_eq, eqb_ℤ, eqb_ℤ_iff}

module _ {Entity : Type 0} where
  abbrev pub id_of : Msg Entity → ℤ
  id_of msg = msg.id

  -- An album with a message at least.
  abbrev pub HasAlbum : ℕ → ℤ → Map AlbumKey (AlbumGroup (Msg Entity)) → Type 0
  HasAlbum task gid groups =
      (group : AlbumGroup (Msg Entity)) × (lookup (album_key task gid) groups ≡ some group)
      × (0 < length group.msgs)

-- The waiters, the channels and the number of the next channel of a task, where `Comes` says of an
-- album that it will be delivered.
pub record IsLive {Entity : Type 0} (wait : Map ℤ ℕ) (chans : Map ℕ (AlbumChan Entity)) (next : ℕ)
    (Comes : ℤ → Type 0) : Type 0 where
  pub open_chan : (gid : ℤ) (ch : ℕ) → lookup gid wait ≡ some ch → lookup ch chans ≡ some new_chan
  pub has_album : (gid : ℤ) (ch : ℕ) → lookup gid wait ≡ some ch → Comes gid
  pub one_waiter :
      (gid other : ℤ) (ch : ℕ)
      → lookup gid wait ≡ some ch
      → lookup other wait ≡ some ch
      → gid ≡ other
  pub has_waiter :
      (ch : ℕ) (c : AlbumChan Entity)
      → lookup ch chans ≡ some c
      → c.closed ≡ false
      → (gid : ℤ) × (lookup gid wait ≡ some ch)
  pub below : (ch : ℕ) (c : AlbumChan Entity) → lookup ch chans ≡ some c → ch < next

module _ {Entity : Type 0} (wait : Map ℤ ℕ) (chans : Map ℕ (AlbumChan Entity)) (next : ℕ)
    (Comes : ℤ → Type 0) (v : IsLive wait chans next Comes) where
  -- The albums may change as long as those that are waited for are kept.
  pub keep_albums :
      (Comes' : ℤ → Type 0)
      → ((gid : ℤ) (ch : ℕ) → lookup gid wait ≡ some ch → Comes gid → Comes' gid)
      → IsLive wait chans next Comes'
  keep_albums Comes' h = record {
    open_chan = v.open_chan;
    has_album = λ gid ch e. h gid ch e (v.has_album gid ch e);
    one_waiter = v.one_waiter;
    has_waiter = v.has_waiter;
    below = v.below;
  }

  below_next : (gid : ℤ) (ch : ℕ) → lookup gid wait ≡ some ch → ch < next
  below_next gid ch e = v.below ch new_chan (v.open_chan gid ch e)

  still_waits :
      (gid : ℤ)
      → lookup gid wait ≡ none
      → (ch : ℕ) → (g : ℤ) × (lookup g wait ≡ some ch)
      → (g : ℤ) × (lookup g (insert gid next wait) ≡ some ch)
  still_waits gid n ch (g, w) =
      (g, ground (arith, lookup-insert g gid next wait, w, n, eqb_ℤ_iff gid g))

  pub new_waiter :
      (gid : ℤ)
      → lookup gid wait ≡ none
      → Comes gid
      → IsLive (insert gid next wait) (insert next new_chan chans) (suc next) Comes
  new_waiter gid n h = record {
    open_chan = λ g ch e. ground (
      arith,
      rw (lookup-insert g gid next wait) at e,
      lookup-insert ch next (new_chan {Entity = Entity}) chans,
      v.open_chan g ch,
      below_next g ch,
    );
    has_album = λ g ch e. elim (Bool-cases (eqb_ℤ gid g)) [
      | inl q ↦ subst Comes ((eqb_ℤ_iff gid g).0 q) h
      | inr q ↦ v.has_album g ch (rw q at (rw (lookup-insert g gid next wait) at e))
    ];
    one_waiter = λ g other ch e f. ground (
      arith,
      rw (lookup-insert g gid next wait) at e,
      rw (lookup-insert other gid next wait) at f,
      v.one_waiter g other ch,
      below_next g ch,
      below_next other ch,
      eqb_ℤ_iff gid g,
      eqb_ℤ_iff gid other,
    );
    has_waiter = λ ch c e f. elim (Bool-cases (eqb next ch)) [
      | inl q ↦ (gid, ground (arith, lookup-insert gid gid next wait, same_refl gid, q))
      | inr q ↦
          still_waits gid n ch
            (v.has_waiter ch c (rw q at (rw (lookup-insert ch next new_chan chans) at e)) f)
    ];
    below = λ ch c e.
        ground
          (arith, rw (lookup-insert ch next (new_chan {Entity = Entity}) chans) at e, v.below ch c);
  }

  closed_album :
      (gid : ℤ) (ch : ℕ) (sent : Option (List (Msg Entity)))
      → lookup gid wait ≡ some ch
      → close_album sent ch chans ≡ insert ch (record { batch = sent; closed = true }) chans
  unfolding close_album close_with
  closed_album gid ch sent e = ground (arith, v.open_chan gid ch e)

  waits_on :
      (gid : ℤ) (ch other : ℕ)
      → lookup gid wait ≡ some ch
      → other ≢ ch
      → (g : ℤ) × (lookup g wait ≡ some other)
      → (g : ℤ) × (lookup g (delete gid wait) ≡ some other)
  waits_on gid ch other e d (g, w) =
      (g, ground (arith, lookup-delete g gid wait, w, e, eqb_ℤ_iff gid g, d))

  -- The delivery to the waiter of an album, which leaves the grouper.
  pub close_waiter :
      (gid : ℤ) (ch : ℕ) (sent : Option (List (Msg Entity))) (Comes' : ℤ → Type 0)
      → lookup gid wait ≡ some ch
      → ((g : ℤ) → g ≢ gid → Comes g → Comes' g)
      → IsLive (delete gid wait) (close_album sent ch chans) next Comes'
  close_waiter gid ch sent Comes' e h =
      let done : AlbumChan Entity = record { batch = sent; closed = true } in
      rw (closed_album gid ch sent e) record {
        open_chan = λ g other f. ground (
          arith,
          rw (lookup-delete g gid wait) at f,
          lookup-insert other ch done chans,
          v.open_chan g other,
          v.one_waiter g gid ch,
          e,
          eqb_ℤ_iff gid g,
        );
        has_album = λ g other f.
            (let a : (lookup g wait ≡ some other) × (g ≢ gid) =
                ground (arith, rw (lookup-delete g gid wait) at f, eqb_ℤ_iff gid g) in
              h g a.1 (v.has_album g other a.0));
        one_waiter = λ g g' other f f'. ground (
          arith,
          rw (lookup-delete g gid wait) at f,
          rw (lookup-delete g' gid wait) at f',
          v.one_waiter g g' other,
        );
        has_waiter = λ other c f o.
            (let a : (lookup other chans ≡ some c) × (other ≢ ch) =
                ground (arith, rw (lookup-insert other ch done chans) at f, o) in
              waits_on gid ch other e a.1 (v.has_waiter other c a.0 o));
        below = λ other c f. ground (
          arith,
          rw (lookup-insert other ch done chans) at f,
          v.below other c,
          below_next gid ch e,
        );
      }
