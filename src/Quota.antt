-- ===== src/Quota.antt =====
-- internal/engine/quota.go: the daily quota of a task and the wait for it. What the clock, the
-- context and the database answer is the environment: a function for each call, of the round of the
-- wait at which it is made. A date is the text that the clock's time is formatted to. Counts are Go
-- ints; their sum wraps.
pub mod Wait
pub mod Adding
pub mod Rounds
pub mod Ending
mod Tests
use tgvive.Prelude.Int.{ℤ, ltb_ℤ, pos, eqb_ℤ, leb_ℤ}
use tgvive.Prelude.{
  ℕ, Bool, Option, if◌then◌else◌, none, List, ◌*◌, eqb, ltb, true, ◌++◌, not, some, ◌&&◌, suc,
  false, ◌-◌, ◌∷◌, [], zero,
}
use tgvive.Prelude.Results.{Result, ok, err}
use tgvive.Clock.{Time, minute_ns, duration_until_next_midnight}
use tgvive.Text.{Text, trim_space, text_same}
use tgvive.Window.{contains, next_start, RunWindow, WindowError, no_window, parse_run_window}
use tgvive.Prelude.Int64.{◌+i◌}

pub data PauseReason : Type 0 where
  not_paused daily_quota outside_window : PauseReason

pub record TaskQuota : Type 0 where
  pub daily_limit : ℤ
  pub window_raw : Text
  pub window : RunWindow
  pub window_err : Option WindowError
  pub today_date : Text
  pub today_count : ℤ
  pub paused_reason : PauseReason

pub record QuotaEnv (Err : Type 0) : Type 0 where
  pub ctx_err : ℕ → Option Err
  pub now : ℕ → Time
  pub today_of : Time → Text
  pub persist_reset : ℕ → Text → Option Err
  pub persist_increment : ℕ → Text → ℤ → Option Err

-- The wait as it stands: the quota, whether the warning on a bad window was given, and the changes
-- of the task's status, each with its reason.
pub data Change : Type 0 where
  paused resumed : PauseReason → Change
  warned : Change

pub record Waiting : Type 0 where
  pub quota : TaskQuota
  pub window_warned : Bool
  pub changes : List Change

-- A round of the wait returns, or it sleeps for so long and goes on.
pub data Round (Err : Type 0) : Type 0 where
  returns : Option Err → Waiting → Round Err
  sleeps : ℕ → Waiting → Round Err

pub data Waited (Err : Type 0) : Type 0 where
  waited : Option Err → Waiting → Waited Err
  still_waiting : Waiting → Waited Err

unfoldable pub at_least_zero : ℤ → ℤ
at_least_zero n = if ltb_ℤ n (pos 0) then pos 0 else n

-- The window of a text; an invalid one leaves the error and no window.
unfoldable pub with_window : Result WindowError RunWindow → TaskQuota → TaskQuota
with_window (ok w) q = record q { window = w; window_err = none }
with_window (err e) q = record q { window = no_window; window_err = some e }

unfoldable pub new_task_quota : ℤ → Text → Text → ℤ → TaskQuota
new_task_quota daily_limit run_window today_date today_count =
    let raw = trim_space run_window in
    let q : TaskQuota = record {
      daily_limit = at_least_zero daily_limit;
      window_raw = raw;
      window = no_window;
      window_err = none;
      today_date = trim_space today_date;
      today_count = at_least_zero today_count;
      paused_reason = not_paused;
    } in
    if text_same raw [] then q else with_window (parse_run_window raw) q

unfoldable pub update_config : ℤ → Text → TaskQuota → TaskQuota
update_config daily_limit window_raw q =
    let limit = at_least_zero daily_limit in
    let raw = trim_space window_raw in
    let fresh = record q {
      daily_limit = limit;
      window_raw = raw;
      window = no_window;
      window_err = none;
    } in
    if eqb_ℤ q.daily_limit limit && text_same (trim_space q.window_raw) raw
    then q
    else if text_same raw []
    then fresh
    else with_window (parse_run_window raw) fresh

abbrev pub quota_poll_interval : ℕ
quota_poll_interval = 10 * minute_ns

-- minDuration
unfoldable pub min_duration : ℕ → ℕ → ℕ
min_duration a b = if eqb a 0 then 0 else if eqb b 0 then a else if ltb a b then a else b

-- The sleep until a time that lies ahead, but no longer than the interval.
unfoldable pub sleep_until : Time → Time → ℕ
sleep_until next now =
    min_duration (if ltb next now then quota_poll_interval else next - now) quota_poll_interval

unfoldable pub eqb_reason : PauseReason → PauseReason → Bool
eqb_reason not_paused not_paused = true
eqb_reason daily_quota daily_quota = true
eqb_reason outside_window outside_window = true
eqb_reason _ _ = false

unfoldable pub mark_quota_paused : PauseReason → Waiting → Waiting
mark_quota_paused reason w = if eqb_reason w.quota.paused_reason reason then w else record w {
  quota = record w.quota { paused_reason = reason };
  changes = w.changes ++ paused reason ∷ [];
}

unfoldable pub mark_quota_running : Waiting → Waiting
mark_quota_running w = if eqb_reason w.quota.paused_reason not_paused then w else record w {
  quota = record w.quota { paused_reason = not_paused };
  changes = w.changes ++ resumed w.quota.paused_reason ∷ [];
}

-- A new day begins with a count of 0.
unfoldable pub is_new_day : Text → TaskQuota → Bool
is_new_day today q = not (text_same (trim_space q.today_date) today)

unfoldable pub roll_day : Text → TaskQuota → TaskQuota
roll_day today q =
    if is_new_day today q then record q { today_date = today; today_count = pos 0 } else q

unfoldable pub warn_window : Waiting → Waiting
warn_window w = elim w.quota.window_err [
  | none ↦ w
  | some e ↦
      if w.window_warned
      then w
      else record w { window_warned = true; changes = w.changes ++ warned ∷ [] }
]

unfoldable pub is_outside : Time → TaskQuota → Bool
is_outside now q = elim q.window_err [
  | none ↦ q.window.enabled && not (contains q.window now)
  | some e ↦ false
]

unfoldable pub is_used_up : ℤ → TaskQuota → Bool
is_used_up need q = ltb_ℤ (pos 0) q.daily_limit && ltb_ℤ q.daily_limit (q.today_count +i need)

-- The exception for what needs no quota: it may go on while the task stays paused.
unfoldable pub stays_paused : ℤ → TaskQuota → Bool
stays_paused need q =
    eqb_ℤ need (pos 0)
    && eqb_reason q.paused_reason daily_quota
    && ltb_ℤ (pos 0) q.daily_limit
    && leb_ℤ q.daily_limit q.today_count

module _ {Err : Type 0} (env : QuotaEnv Err) where
  -- The tests of a round, on the day's quota.
  unfoldable pub quota_tests : Time → ℤ → Waiting → Round Err
  quota_tests now need w =
      if is_outside now w.quota
      then sleeps (sleep_until (next_start w.quota.window now) now)
          (mark_quota_paused outside_window w)
      else if is_used_up need w.quota
      then sleeps (min_duration (duration_until_next_midnight now) quota_poll_interval)
          (mark_quota_paused daily_quota w)
      else if stays_paused need w.quota
      then returns none w
      else returns none (mark_quota_running w)

  unfoldable pub persist_day : ℕ → Text → TaskQuota → Option Err
  persist_day round today q = if is_new_day today q then env.persist_reset round today else none

  unfoldable pub quota_round : ℕ → ℤ → Waiting → Round Err
  quota_round round need w =
      let now = env.now round in
      let today = env.today_of now in
      let w' = record w { quota = roll_day today w.quota } in
      elim (env.ctx_err round) [
        | some e ↦ returns (some e) w
        | none ↦ elim (persist_day round today w.quota) [
          | some e ↦ returns (some e) w'
          | none ↦ quota_tests now need (warn_window w')
        ]
      ]

  -- The loop, on fuel.
  unfoldable pub wait_rounds : ℕ → ℕ → ℤ → Waiting → Waited Err
  wait_rounds zero round need w = still_waiting w
  wait_rounds (suc fuel) round need w = elim (quota_round round need w) [
    | returns e w' ↦ waited e w'
    | sleeps d w' ↦ wait_rounds fuel (suc round) need w'
  ]

  unfoldable pub wait_for_quota : ℕ → ℤ → TaskQuota → Waited Err
  wait_for_quota fuel need q =
      wait_rounds fuel 0 (at_least_zero need)
        (record { quota = q; window_warned = false; changes = [] })

  -- What quotaAdd returns, with the quota that it leaves.
  unfoldable pub quota_add : ℕ → ℤ → TaskQuota → Option Err × TaskQuota
  quota_add round delta q =
      let today = env.today_of (env.now round) in
      let rolled = roll_day today q in
      elim (env.ctx_err round) [
        | some e ↦ (some e, q)
        | none ↦ if leb_ℤ delta (pos 0) then (none, q) else elim (persist_day round today q) [
          | some e ↦ (some e, rolled)
          | none ↦ elim (env.persist_increment round today delta) [
            | some e ↦ (some e, rolled)
            | none ↦ (none, record rolled { today_count = rolled.today_count +i delta })
          ]
        ]
      ]
