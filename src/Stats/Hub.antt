-- ===== src/Stats/Hub.antt =====
-- internal/global/stats.go, logHub: the channels of those who follow the log. A channel is a number;
-- what it holds and its size are in `chans`, which also keeps the closed ones.
use tgvive.Prelude.{
  ℕ, List, [], Bool, ◌∷◌, true, if◌then◌else◌, false, eqb, ltb, suc, ◌||◌, length, none, some, ◌++◌,
  nat_eq,
}
use tgvive.Stats.Ring.{LogEvent}
use tgvive.Prelude.Map.{Map, insert, lookup}
use tgvive.Prelude.Int.{ℤ, leb_ℤ, pos, ltb_ℤ, pos_part}

pub record LogChan : Type 0 where
  pub capacity : ℕ
  pub waiting : List LogEvent
  pub closed : Bool

pub record LogHub : Type 0 where
  pub subs : List ℕ
  pub chans : Map ℕ LogChan
  pub fresh : ℕ

unfoldable pub new_log_hub : LogHub
new_log_hub = record { subs = []; chans = []; fresh = 0 }

unfoldable pub clamp_buf : ℤ → ℕ
clamp_buf buf = if leb_ℤ buf (pos 0) then 64 else if ltb_ℤ (pos 512) buf then 512 else pos_part buf

unfoldable pub subscribe : ℤ → LogHub → LogHub × ℕ
subscribe buf h = (
  record {
    subs = h.fresh ∷ h.subs;
    chans =
        insert h.fresh (record { capacity = clamp_buf buf; waiting = []; closed = false }) h.chans;
    fresh = suc h.fresh;
  },
  h.fresh,
)

unfoldable pub has_sub : ℕ → List ℕ → Bool
has_sub ch [] = false
has_sub ch (c ∷ cs) = eqb c ch || has_sub ch cs

unfoldable pub drop_sub : ℕ → List ℕ → List ℕ
drop_sub ch [] = []
drop_sub ch (c ∷ cs) = if eqb c ch then drop_sub ch cs else c ∷ drop_sub ch cs

-- The change of a channel that exists.
unfoldable pub change_chan : (LogChan → LogChan) → ℕ → Map ℕ LogChan → Map ℕ LogChan
change_chan f ch chans = elim (lookup ch chans) [ none ↦ chans | some c ↦ insert ch (f c) chans ]

abbrev pub close_chan : LogChan → LogChan
close_chan c = record c { closed = true }

unfoldable pub unsubscribe : ℕ → LogHub → LogHub
unsubscribe ch h =
    if has_sub ch h.subs
    then record h { subs = drop_sub ch h.subs; chans = change_chan close_chan ch h.chans }
    else h

-- A send that does not wait: a full channel loses the event.
unfoldable pub offer : LogEvent → LogChan → LogChan
offer ev c =
    if ltb (length c.waiting) c.capacity then record c { waiting = c.waiting ++ ev ∷ [] } else c

unfoldable pub publish_to : LogEvent → List ℕ → Map ℕ LogChan → Map ℕ LogChan
publish_to ev [] chans = chans
publish_to ev (ch ∷ rest) chans = publish_to ev rest (change_chan (offer ev) ch chans)

unfoldable pub publish_event : LogEvent → LogHub → LogHub
publish_event ev h = record h { chans = publish_to ev h.subs h.chans }
