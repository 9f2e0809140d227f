-- ===== src/Quota/Tests.antt =====
-- Runs of the quota of internal/engine/quota.go.
use tgvive.Clock.{Time, hour_ns, minutes_of, day_ns}
use tgvive.Prelude.{
  ℕ, ◌*◌, suc, none, ◌+◌, if◌then◌else◌, [], arith, false, ltb, refl, ◌≡◌, ◌<◌, true, zero,
}
use tgvive.Quota.{
  QuotaEnv, TaskQuota, Waiting, is_new_day, is_outside, wait_for_quota, quota_add, not_paused,
}
use tgvive.Quota.Wait.{IsInQuota, WaitGrants, wait_for_quota-WaitGrants, Grants}
use tgvive.Window.{contains, window_of}
use tgvive.Text.{trim_space, Text, text, trim_left, trim_right, is_space, text_same}
use tgvive.Quota.Rounds.{HasReturned}
use tgvive.Quota.Ending.{wait_for_quota-ends}
use tgvive.Prelude.Int.{pos, ◌+ℤ◌}
use tgvive.Quota.Adding.{quota_add-IsInQuota}

abbrev noon : Time
noon = 12 * hour_ns

-- A clock that shows noon of one day and then noon of the next; the dates are "a" and "b".
abbrev clock : ℕ → Time
clock zero = noon
clock (suc round) = noon + day_ns

abbrev date_of : Time → Text
date_of t = if ltb t day_ns then text "a" else text "b"

abbrev parts : QuotaEnv ℕ
parts = record {
  ctx_err = λ round. none;
  now = clock;
  today_of = date_of;
  persist_reset = λ round today. none;
  persist_increment = λ round today delta. none;
}

-- Three of three messages of today are spent.
abbrev spent : TaskQuota
spent = record {
  daily_limit = pos 3;
  window_raw = [];
  window = window_of 540 1080;
  window_err = none;
  today_date = text "a";
  today_count = pos 3;
  paused_reason = not_paused;
}

spent-IsInQuota : IsInQuota (pos 3) (window_of 540 1080) none spent
spent-IsInQuota = (refl, refl, omega arith, refl, refl)

wait_for_quota-WaitGrants_example :
    WaitGrants parts
      (pos 3)
      (pos 2)
      (window_of 540 1080)
      none
      (wait_for_quota parts 2 (pos 2) spent)
wait_for_quota-WaitGrants_example =
    wait_for_quota-WaitGrants parts (pos 3) (pos 2) (window_of 540 1080) none (omega arith) 2 spent
      spent-IsInQuota

-- The next day, with nothing of the limit used.
abbrev rested : Waiting
rested = record {
  quota = record spent { today_date = text "b"; today_count = pos 0 };
  window_warned = false;
  changes = [];
}

granted : Grants parts (pos 3) (pos 2) (window_of 540 1080) none 1 none rested
unfolding window_of contains minutes_of ◌+ℤ◌
granted = ((refl, refl, omega arith, refl, refl), omega arith, refl)

quota_add-IsInQuota_example :
    IsInQuota (pos 3) (window_of 540 1080) none (quota_add parts 2 (pos 2) rested.quota).1
quota_add-IsInQuota_example =
    quota_add-IsInQuota parts (pos 3) (pos 2) (window_of 540 1080) none (omega arith) 1 2 rested
      granted

before_b :
    (round : ℕ) → round < 1 → text_same (trim_space (date_of (clock round))) (text "b") ≡ false
unfolding trim_space trim_left trim_right is_space
before_b zero h = refl
before_b (suc round) h = absurd (omega arith)

new_day : is_new_day (text "b") spent ≡ true
unfolding is_new_day trim_space trim_left trim_right is_space
new_day = refl

open_b : is_outside (clock 1) spent ≡ false
unfolding is_outside window_of contains minutes_of
open_b = refl

wait_for_quota-ends_example : HasReturned parts (pos 2) (wait_for_quota parts 2 (pos 2) spent)
wait_for_quota-ends_example =
    wait_for_quota-ends parts (pos 2) spent (text "b") 1 2 (omega arith) refl before_b new_day
      open_b refl (omega arith) (omega arith)
