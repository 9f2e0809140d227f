-- ===== src/Quota/Adding.antt =====
-- What the wait has granted may be added to the count.
use tgvive.Prelude.{none, some, Option, ℕ, if◌then◌else◌, arith, Bool, true, false, refl}
use tgvive.Quota.{QuotaEnv, TaskQuota, roll_day, quota_add, is_new_day, Waiting, persist_day}
use tgvive.Prelude.Int.{ℤ, ◌+ℤ◌, ◌≤ℤ◌, pos, +ℤ_parts, leb_ℤ}
use tgvive.Window.{RunWindow, WindowError}
use tgvive.Quota.Wait.{InRange, IsInQuota, sum_exact, Grants}
use tgvive.Text.{Text}
use tgvive.Prelude.Int64.{◌+i◌}

module _ {Err : Type 0} (env : QuotaEnv Err) (limit need : ℤ) (window : RunWindow)
    (bad : Option WindowError) (range : InRange limit need) where
  abbrev HasRoom : TaskQuota → Type 0
  HasRoom q = IsInQuota limit window bad q × (q.today_count +ℤ need ≤ℤ limit)

  roll_day-HasRoom : (today : Text) (q : TaskQuota) → HasRoom q → HasRoom (roll_day today q)
  unfolding roll_day
  roll_day-HasRoom today q (h, room) =
      elim (is_new_day today q)
        as (λ b. HasRoom (if b then record q { today_date = today; today_count = pos 0 } else q)) [
          | true ↦ (
            (h.0, refl, omega arith, h.3, h.4),
            omega (arith, +ℤ_parts (pos 0) need, +ℤ_parts q.today_count need, h.1, range.2),
          )
          | false ↦ (h, room)
        ]

  add-IsInQuota :
      (q : TaskQuota)
      → HasRoom q
      → IsInQuota limit window bad (record q { today_count = q.today_count +i need })
  add-IsInQuota q (h, room) =
      let (nonneg, sum) = sum_exact limit need q.today_count range h.1 h.2 in
      (
        h.0,
        nonneg,
        omega (arith, nonneg, sum, room, +ℤ_parts q.today_count need, h.1, range.2),
        h.3,
        h.4,
      )

  -- What a wait has granted, with a positive limit and a need whose sum with it does not wrap, can be
  -- added at any later round, on the same day or another: whatever quotaAdd returns, the count is from
  -- 0 to the limit, and the limit and the window are as before.
  pub quota_add-IsInQuota :
      (round later : ℕ) (w : Waiting)
      → Grants env limit need window bad round none w
      → IsInQuota limit window bad (quota_add env later need w.quota).1
  unfolding quota_add
  quota_add-IsInQuota round later w (h, room, open_now) =
      let today = env.today_of (env.now later) in
      added (env.ctx_err later) (leb_ℤ need (pos 0)) (persist_day env later today w.quota)
        (env.persist_increment later today need) (roll_day-HasRoom today w.quota (h, room))
    where
      added :
          (stopped : Option Err) (nothing : Bool) (unsaved failed : Option Err)
          → HasRoom (roll_day (env.today_of (env.now later)) w.quota)
          → IsInQuota limit window bad
              (elim stopped as (λ x. Option Err × TaskQuota) [
                | some e ↦ (some e, w.quota)
                | none ↦ if nothing then (none, w.quota) else elim unsaved [
                  | some e ↦ (some e, roll_day (env.today_of (env.now later)) w.quota)
                  | none ↦ elim failed [
                    | some e ↦ (some e, roll_day (env.today_of (env.now later)) w.quota)
                    | none ↦ (
                      none,
                      record (roll_day (env.today_of (env.now later)) w.quota) {
                        today_count =
                            (roll_day (env.today_of (env.now later)) w.quota).today_count +i need;
                      },
                    )
                  ]
                ]
              ]).1
      added (some e) nothing unsaved failed r = h
      added none true unsaved failed r = h
      added none false (some e) failed r = r.0
      added none false none (some e) r = r.0
      added none false none none r =
          add-IsInQuota (roll_day (env.today_of (env.now later)) w.quota) r
