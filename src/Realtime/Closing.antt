-- ===== src/Realtime/Closing.antt =====
-- Closing the channels of all waiters.
use tgvive.Prelude.{
  ℕ, List, Option, some, none, ◌≡◌, if◌then◌else◌, false, eqb, ◌≢◌, Option-cases, [], inl, arith,
  inr, nat_eq,
}
use tgvive.Realtime.{close_album, close_all, close_with, AlbumChan}
use tgvive.Prelude.Map.{lookup, Map, lookup-insert}
use tgvive.Filter.{Msg}
use tgvive.Prelude.Int.{ℤ, int_eq}
use tgvive.Realtime.Waiters.{IsLive}
use tgvive.Prelude.{◌∷◌, []}

map_option : {A : Type 0} → (A → A) → Option A → Option A
map_option f none = none
map_option f (some a) = some (f a)

module _ {Entity : Type 0} where
  lookup-close_album :
      (sent : Option (List (Msg Entity))) (ch x : ℕ) (chans : Map ℕ (AlbumChan Entity))
      → lookup ch (close_album sent x chans)
        ≡ (if eqb x ch then map_option (close_with sent) (lookup ch chans) else lookup ch chans)
  unfolding close_album map_option
  lookup-close_album sent ch x chans = elim (Option-cases (lookup x chans)) [
    | inl e ↦ ground (arith, e)
    | inr (c, e) ↦ ground (arith, e, lookup-insert ch x (close_with sent c) chans)
  ]

  -- A channel that is open after a stop was open before, and no waiter's.
  close_all_open :
      (wait : Map ℤ ℕ) (chans : Map ℕ (AlbumChan Entity)) (ch : ℕ) (c : AlbumChan Entity)
      → lookup ch (close_all wait chans) ≡ some c
      → c.closed ≡ false
      → (lookup ch chans ≡ some c) × ((gid : ℤ) → lookup gid wait ≢ some ch)
  unfolding close_all lookup close_with map_option
  close_all_open [] chans ch c e o = (e, λ gid f. cc)
  close_all_open ((g, x) ∷ rest) chans ch c e o =
      let (a, b) = close_all_open rest (close_album none x chans) ch c e o in
      let d : (x ≢ ch) × (lookup ch chans ≡ some c) =
        ground (arith, rw (lookup-close_album none ch x chans) at a, o) in
      (d.1, λ gid f. ground (arith, f, b gid, d.0))

  -- A stop makes no new channel.
  close_all-none :
      (wait : Map ℤ ℕ) (chans : Map ℕ (AlbumChan Entity)) (ch : ℕ)
      → lookup ch chans ≡ none
      → lookup ch (close_all wait chans) ≡ none
  unfolding close_all map_option
  close_all-none [] chans ch e = e
  close_all-none ((g, x) ∷ rest) chans ch e =
      close_all-none rest (close_album none x chans) ch
        (ground (arith, lookup-close_album none ch x chans, e))

  pub stop-IsLive :
      (wait : Map ℤ ℕ) (chans : Map ℕ (AlbumChan Entity)) (next : ℕ) (Comes : ℤ → Type 0)
      → IsLive wait chans next Comes
      → IsLive [] (close_all wait chans) next Comes
  unfolding lookup
  stop-IsLive wait chans next Comes v = record {
    open_chan = λ gid ch e. cc;
    has_album = λ gid ch e. absurd (cc);
    one_waiter = λ gid other ch e f. cc;
    has_waiter = λ ch c e o.
        (let (a, b) = close_all_open wait chans ch c e o in
          let (g, w) = v.has_waiter ch c a o in absurd (b g w));
    below = λ ch c e. elim (Option-cases (lookup ch chans)) [
      | inl n ↦ absurd (ground (arith, close_all-none wait chans ch n, e))
      | inr (x, n) ↦ v.below ch x n
    ];
  }
