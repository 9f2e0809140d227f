-- ===== src/Stats/Tests.antt =====
-- Witnesses on small logs and counts.
use tgvive.Prelude.{ℕ, List, ◌∷◌, [], ◌≡◌, ◌%◌, ◌^◌, refl}
use tgvive.Stats.Ring.{LogEvent, snapshot_events, log_info, new_log_ring}
use tgvive.Stats.Today.{Counted, count_calls, today_of, total, on_day, total_of, count_calls-sums}
use tgvive.Prelude.Int.{pos}
use tgvive.Stats.{new_app_stats}
use tgvive.Stats.Pushes.{push_all}
use tgvive.Text.{text}
use tgvive.Stats.Recent.{shown, snapshot_events-Recent}
use tgvive.Stats.View.{last}
use tgvive.Stats.Today.{succeeded, failed}

abbrev numbered : ℕ → LogEvent
numbered n = record { id = n; ts = pos n; level = log_info; message = text "copied" }

abbrev three_events : List LogEvent
three_events = numbered 1 ∷ numbered 2 ∷ numbered 3 ∷ []

snapshot_events-Recent_example :
    snapshot_events 2 (pos 5) (push_all three_events (new_log_ring (pos 2)))
    ≡ shown 2 (pos 5) (last (new_log_ring (pos 2)).cap three_events)
snapshot_events-Recent_example = snapshot_events-Recent (pos 2) (pos 5) 2 three_events

-- The latest call first: two on the second day after one on the first.
abbrev three_calls : List Counted
three_calls =
    record { outcome = succeeded; day = text "2026-01-02"; n = 2 }
    ∷ record { outcome = failed; day = text "2026-01-02"; n = 1 }
    ∷ record { outcome = succeeded; day = text "2026-01-01"; n = 4 }
    ∷ []

count_calls-sums_example :
    let s = count_calls three_calls (new_app_stats (text "2026-01-01")) in
    (today_of succeeded s ≡ total succeeded (on_day s.biz_day three_calls) % 2 ^ 64)
    × (total_of succeeded s ≡ total succeeded three_calls % 2 ^ 64)
count_calls-sums_example =
    count_calls-sums succeeded three_calls (text "2026-01-01") (refl, (refl, (refl, tt)))
