-- ===== src/Clock/Laws.antt =====
-- Facts about instants and minutes of the day.
use tgvive.Clock.{
  Time, day_ns, minute_ns, minutes_of, day_of, time_at_minutes, duration_until_next_midnight,
}
use tgvive.Prelude.{◌≡◌, ◌<◌, ℕ, ◌+◌, ◌%◌, arith, ◌/◌, ◌*◌}

pub minutes_of_lem : (t : Time) → minutes_of t ≡ t % day_ns / minute_ns
unfolding minutes_of
minutes_of_lem t = omega arith

pub minutes_of-lt : (t : Time) → minutes_of t < 1440
minutes_of-lt t = omega (arith, minutes_of_lem t)

pub time_at_minutes_lem :
    (t : Time) (m : ℕ) → m < 1440 → time_at_minutes t m ≡ t / day_ns * day_ns + m * minute_ns
unfolding time_at_minutes
time_at_minutes_lem t m h = ground arith

-- The minute of the day that was asked for, on the same day.
pub minutes_of-time_at_minutes :
    (t : Time) (m : ℕ)
    → m < 1440
    → (minutes_of (time_at_minutes t m) ≡ m) × (day_of (time_at_minutes t m) ≡ day_of t)
unfolding day_of
minutes_of-time_at_minutes t m h = (
  omega (arith, minutes_of_lem (time_at_minutes t m), time_at_minutes_lem t m h),
  omega (arith, time_at_minutes_lem t m h),
)

-- The wait until midnight ends at the first instant of the next day.
pub next_midnight :
    (now : Time)
    → ((now + duration_until_next_midnight now) % day_ns ≡ 0)
      × (day_of (now + duration_until_next_midnight now) ≡ day_of now + 1)
unfolding duration_until_next_midnight day_of
next_midnight now = omega arith
