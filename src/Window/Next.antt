-- ===== src/Window/Next.antt =====
-- When a window is open, and when it opens next.
use tgvive.Window.{RunWindow, contains, next_start}
use tgvive.Window.Parse.{IsWindow}
use tgvive.Clock.{Time, next_day, minutes_of, day_ns}
use tgvive.Prelude.{◌≡◌, true, false, ◌≢◌, ◌<◌, ltb, ◌≤◌, arith, ◌+◌, ◌-◌, ◌%◌}
use tgvive.Clock.Laws.{
  minutes_of_lem, time_at_minutes_lem, minutes_of-lt, minutes_of-time_at_minutes,
}

-- A window whose start and end differ is open exactly when the minutes since its start, round the
-- clock, are fewer than its length.
pub contains_cyclic :
    (w : RunWindow) (now : Time)
    → IsWindow w
    → w.enabled ≡ true
    → w.start_min ≢ w.end_min
    → contains w now
      ≡ ltb ((minutes_of now + 1440 - w.start_min) % 1440) ((w.end_min + 1440 - w.start_min) % 1440)
unfolding contains
contains_cyclic w now v e n = ground (arith, minutes_of-lt now)

-- Outside its window a task waits until the first instant at which the window is open: that instant
-- lies ahead, the window is open then, and it is shut at every instant before.
pub next_start_earliest :
    (w : RunWindow) (now : Time)
    → IsWindow w
    → contains w now ≡ false
    → (now < next_start w now)
      × (contains w (next_start w now) ≡ true)
      × ((t : Time) → now ≤ t → t < next_start w now → contains w t ≡ false)
unfolding contains next_start next_day
next_start_earliest w now v e = (
  ground (
    arith,
    minutes_of_lem now,
    time_at_minutes_lem now w.start_min,
    time_at_minutes_lem (now + day_ns) w.start_min,
  ),
  ground (
    arith,
    minutes_of_lem now,
    minutes_of-time_at_minutes now w.start_min,
    minutes_of-time_at_minutes (now + day_ns) w.start_min,
  ),
  λ t l m. ground (
    arith,
    minutes_of_lem now,
    minutes_of_lem t,
    time_at_minutes_lem now w.start_min,
    time_at_minutes_lem (now + day_ns) w.start_min,
  ),
)
