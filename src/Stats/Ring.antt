-- ===== src/Stats/Ring.antt =====
-- internal/global/stats.go, logRing: the ring of the recent events. Every index into its buffer is
-- taken modulo `cap`, the buffer's length, so the buffer is a function. The mutex makes each method
-- one step.
use tgvive.Prelude.{ℕ, List, if◌then◌else◌, [], eqb, suc, ltb, ◌+◌, ◌-◌, ◌%◌, ◌∷◌, leb, zero}
use tgvive.Prelude.Int.{ℤ, pos, leb_ℤ, pos_part, ltb_ℤ}
use tgvive.Text.{Text}

pub data LogLevel : Type 0 where
  log_info log_warn log_error : LogLevel

pub record LogEvent : Type 0 where
  pub id : ℕ
  pub ts : ℤ
  pub level : LogLevel
  pub message : Text

pub record LogRing : Type 0 where
  pub buf : ℕ → LogEvent
  pub cap : ℕ
  pub start : ℕ
  pub size : ℕ

-- The zero value, of which Go makes the buffer.
abbrev pub no_event : LogEvent
no_event = record { id = 0; ts = pos 0; level = log_info; message = [] }

unfoldable pub new_log_ring : ℤ → LogRing
new_log_ring capacity = record {
  buf = λ i. no_event;
  cap = if leb_ℤ capacity (pos 0) then 1 else pos_part capacity;
  start = 0;
  size = 0;
}

-- `r.buf[i] = ev`
unfoldable pub put_event : ℕ → LogEvent → (ℕ → LogEvent) → ℕ → LogEvent
put_event i ev buf j = if eqb j i then ev else buf j

unfoldable pub push_event : LogEvent → LogRing → LogRing
push_event ev r =
    if eqb r.cap 0
    then r
    else if ltb r.size r.cap
    then record r { buf = put_event ((r.start + r.size) % r.cap) ev r.buf; size = r.size + 1 }
    else record r { buf = put_event r.start ev r.buf; start = (r.start + 1) % r.cap }

-- The loop over the `n` indices from `i` on.
unfoldable pub copy_events : LogRing → ℕ → ℕ → List LogEvent
copy_events r i zero = []
copy_events r i (suc n) = r.buf ((r.start + i) % r.cap) ∷ copy_events r (suc i) n

-- The loop over the `n` indices from `i` on that passes over the IDs up to `after_id`, where `room`
-- events may still be appended.
unfoldable pub newer_events : LogRing → ℕ → ℕ → ℕ → ℕ → List LogEvent
newer_events r after_id i zero room = []
newer_events r after_id i (suc n) room =
    let ev = r.buf ((r.start + i) % r.cap) in
    let later = newer_events r after_id (suc i) n in
    if leb ev.id after_id then later room else if leb room 1 then ev ∷ [] else ev ∷ later (room - 1)

unfoldable pub clamp_limit : ℤ → ℕ
clamp_limit limit =
    if leb_ℤ limit (pos 0) then 50 else if ltb_ℤ (pos 200) limit then 200 else pos_part limit

unfoldable pub snapshot_events : ℕ → ℤ → LogRing → List LogEvent
snapshot_events after_id limit r =
    let lim = clamp_limit limit in
    if eqb r.size 0
    then []
    else if eqb after_id 0
    then copy_events r (r.size - lim) (r.size - (r.size - lim))
    else newer_events r after_id 0 r.size lim
