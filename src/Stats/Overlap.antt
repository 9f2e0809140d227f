-- ===== src/Stats/Overlap.antt =====
-- internal/global/stats_persist.go, internal/global/stats.go: two calls of AddSuccess that overlap at the
-- change of the day.
use tgvive.Stats.{
  AppStats, add_success, store_biz_day, zero_success, zero_fail, zero_filtered, add_total_success,
  add_today_success,
}
use tgvive.Prelude.{ℕ}
use tgvive.Text.{Text}

-- The first call stores the new day; a whole second call, which finds the day stored, comes before the
-- first zeroes the counters of the day and makes its additions.
unfoldable pub overlapped : Text → ℕ → ℕ → AppStats → AppStats
overlapped day first second s =
    let between = add_success day second (store_biz_day day s) in
    add_today_success first
      (add_total_success first (zero_filtered (zero_fail (zero_success between))))
