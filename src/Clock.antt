-- ===== src/Clock.antt =====
-- Go's `time.Time` in a zone of one fixed offset: an instant is a number of nanoseconds since the
-- first of January of the year 1 in that zone, and the zero value is 0. Clock readings lie centuries
-- later, so the day before an instant is there. Minutes of the day are numbers: `parseHHMM` makes
-- no other, so the tests for negative ones have no case.
pub mod Laws
use tgvive.Prelude.{ℕ, ◌+◌, ◌%◌, ◌/◌, if◌then◌else◌, ◌-◌, ◌*◌, ltb}

abbrev pub Time : Type 0
Time = ℕ

abbrev pub zero_time : Time
zero_time = 0

abbrev pub minute_ns : ℕ
minute_ns = 60000000000

abbrev pub hour_ns : ℕ
hour_ns = 3600000000000

abbrev pub day_ns : ℕ
day_ns = 86400000000000

-- now.Hour()*60 + now.Minute()
unfoldable pub minutes_of : Time → ℕ
minutes_of t = t % day_ns / hour_ns * 60 + t % hour_ns / minute_ns

-- The civil day, which stands for what `Format("2006-01-02")` prints.
unfoldable pub day_of : Time → ℕ
day_of t = t / day_ns

-- time.Date(t.Year(), t.Month(), t.Day(), h, m, 0, 0, t.Location())
unfoldable pub date_at : Time → ℕ → ℕ → Time
date_at t h m = t / day_ns * day_ns + h * hour_ns + m * minute_ns

-- t.AddDate(0, 0, 1)
unfoldable pub next_day : Time → Time
next_day t = t + day_ns

-- internal/engine/quota.go
unfoldable pub time_at_minutes : Time → ℕ → Time
unfolding date_at
time_at_minutes t minutes =
    let m = if ltb (23 * 60 + 59) minutes then 23 * 60 + 59 else minutes in
    date_at t (m / 60) (m % 60)

unfoldable pub duration_until_next_midnight : Time → ℕ
unfolding date_at next_day
duration_until_next_midnight now = next_day (date_at now 0 0) - now
