-- ===== src/Realtime/Runs.antt =====
-- The waiters of a task's albums over a run.
use tgvive.Prelude.{ℕ, List, ◌∷◌, [], true, ◌≡◌, some, arith, ◌<◌, length, false, nat_eq, Bool}
use tgvive.Realtime.Dispatch.{World, fire_timer}
use tgvive.Realtime.{close_album, AlbumChan, close_with, new_chan}
use tgvive.Prelude.Int.{ℤ, int_eq}
use tgvive.Filter.{Msg}
use tgvive.Realtime.Live.{is_added}
use tgvive.Grouper.{fire, AlbumGrouper, AlbumKey, batch_of, AlbumGroup, album_key_eq}
use tgvive.Prelude.Map.{lookup, Map, delete, lookup-insert, same_refl}
use tgvive.Realtime.Happenings.{Happening, drops}

module _ {Entity : Type 0} where
  -- The steps among which no album is dropped.
  unfoldable pub keeps_albums : List (Happening Entity) → Bool
  keeps_albums [] = true
  keeps_albums (drops ∷ hs) = false
  keeps_albums (h ∷ hs) = keeps_albums hs

  -- What an open channel has: its album with the messages, and what the album's timer does.
  abbrev pub IsAwaited : World Entity → ℕ → Type 0
  IsAwaited w ch =
      (gid : ℤ) × (group : AlbumGroup (Msg Entity)) × (0 < length group.msgs)
      × (lookup ch (fire_timer gid group.timer_id w).rt.chans
          ≡ some (record { batch = some group.msgs; closed = true }))

  pub fire_current :
      (key : AlbumKey) (group : AlbumGroup (Msg Entity)) (g : AlbumGrouper (Msg Entity))
      → lookup key g.groups ≡ some group
      → fire key group.timer_id g ≡ (record g { groups = delete key g.groups }, batch_of group.msgs)
  unfolding fire
  fire_current key group g e = ground (arith, e)

  pub lookup-closed :
      (msgs : List (Msg Entity)) (ch : ℕ) (chans : Map ℕ (AlbumChan Entity))
      → lookup ch chans ≡ some new_chan
      → lookup ch (close_album (some msgs) ch chans)
        ≡ some (record { batch = some msgs; closed = true })
  unfolding close_album close_with
  lookup-closed msgs ch chans e = ground (
    arith,
    e,
    lookup-insert ch ch (record { batch = some msgs; closed = true }) chans,
    same_refl ch,
  )

  -- An open channel whose album has still to be given a message.
  abbrev pub IsJoining : World Entity → ℕ → Type 0
  IsJoining w ch =
      (gid : ℤ) × (lookup gid w.rt.album_wait ≡ some ch) × (is_added gid w.adding ≡ true)
