-- ===== src/Quota/Wait.antt =====
-- What the wait for the quota keeps of it, and what holds when it returns without an error.
-- The quota within its limit: the count is from 0 to the limit, and the window is the task's.
use tgvive.Prelude.Int.{ℤ, neg_part, ◌≤ℤ◌, pos_part, int_laws, pos, ◌+ℤ◌, leb_ℤ, +ℤ_parts}
use tgvive.Clock.{Time}
use tgvive.Quota.{
  paused, resumed, roll_day, QuotaEnv, TaskQuota, Waited, quota_tests, quota_round, is_new_day,
  Waiting, Round, waited, mark_quota_paused, returns, still_waiting, mark_quota_running, sleeps,
  PauseReason, eqb_reason, not_paused, is_outside, resumed, outside_window, is_used_up, daily_quota,
  stays_paused, warn_window, persist_day, wait_rounds, wait_for_quota, at_least_zero,
}
use tgvive.Window.{contains, RunWindow, WindowError}
use tgvive.Text.{Text}
use tgvive.Prelude.{
  Option, ◌≡◌, ◌<◌, ℕ, ◌+◌, true, ◌^◌, some, if◌then◌else◌, none, arith, false, refl, Bool-cases,
  ◌++◌, inl, ◌∷◌, [], inr, subst, sym, ◌≤◌, suc, zero,
}
use tgvive.Prelude.Int64.{◌+i◌, +i_exact}

abbrev pub IsInQuota : ℤ → RunWindow → Option WindowError → TaskQuota → Type 0
IsInQuota limit window window_err q =
    (q.daily_limit ≡ limit)
    × (neg_part q.today_count ≡ 0)
    × (q.today_count ≤ℤ limit)
    × (q.window ≡ window)
    × (q.window_err ≡ window_err)

-- A limit and a need that are not negative and whose sum does not wrap.
abbrev pub InRange : ℤ → ℤ → Type 0
InRange limit need =
    (neg_part limit ≡ 0)
    × (0 < pos_part limit)
    × (neg_part need ≡ 0)
    × (pos_part limit + pos_part need < 2 ^ 63)

-- Within the window at a time, if the task has a valid one.
abbrev pub IsOpenAt : Time → RunWindow → Option WindowError → Type 0
IsOpenAt now window none = contains window now ≡ true
IsOpenAt now window (some e) = Unit

pub sum_exact :
    (limit need count : ℤ)
    → InRange limit need
    → neg_part count ≡ 0
    → count ≤ℤ limit
    → (neg_part (count +i need) ≡ 0) × (pos_part (count +i need) ≡ pos_part count + pos_part need)
sum_exact limit need count range nonneg le =
    let exact = +i_exact count need in
    rw (+i_exact count need (omega int_laws)) (omega int_laws, omega int_laws)

roll_day-IsInQuota :
    (today : Text) (limit : ℤ) (window : RunWindow) (bad : Option WindowError) (q : TaskQuota)
    → neg_part limit ≡ 0
    → IsInQuota limit window bad q
    → IsInQuota limit window bad (roll_day today q)
unfolding roll_day
roll_day-IsInQuota today limit window bad q nonneg h =
    elim (is_new_day today q)
      as (λ b.
        IsInQuota limit window bad
          (if b then record q { today_date = today; today_count = pos 0 } else q)) [
            | true ↦ (h.0, refl, omega arith, h.3, h.4)
            | false ↦ h
          ]

module _ (limit : ℤ) (window : RunWindow) (bad : Option WindowError) (w : Waiting)
    (h : IsInQuota limit window bad w.quota) where
  mark_quota_paused-IsInQuota :
      (reason : PauseReason) → IsInQuota limit window bad (mark_quota_paused reason w).quota
  unfolding mark_quota_paused
  mark_quota_paused-IsInQuota reason =
      elim (eqb_reason w.quota.paused_reason reason)
        as (λ b.
          IsInQuota limit window bad
            (if b then w else record w {
              quota = record w.quota { paused_reason = reason };
              changes = w.changes ++ paused reason ∷ [];
            }).quota) [ true ↦ h | false ↦ h ]

  mark_quota_running-IsInQuota : IsInQuota limit window bad (mark_quota_running w).quota
  unfolding mark_quota_running
  mark_quota_running-IsInQuota =
      elim (eqb_reason w.quota.paused_reason not_paused)
        as (λ b.
          IsInQuota limit window bad
            (if b then w else record w {
              quota = record w.quota { paused_reason = not_paused };
              changes = w.changes ++ resumed w.quota.paused_reason ∷ [];
            }).quota) [ true ↦ h | false ↦ h ]

pub warn_window_quota : (w : Waiting) → (warn_window w).quota ≡ w.quota
unfolding warn_window
warn_window_quota w = ground arith

mark_quota_running_count :
    (w : Waiting) → (mark_quota_running w).quota.today_count ≡ w.quota.today_count
unfolding mark_quota_running
mark_quota_running_count w = ground arith

is_used_up-fits :
    (limit need : ℤ) (window : RunWindow) (bad : Option WindowError) (q : TaskQuota)
    → InRange limit need
    → IsInQuota limit window bad q
    → is_used_up need q ≡ false
    → q.today_count +ℤ need ≤ℤ limit
unfolding is_used_up
is_used_up-fits limit need window bad q range h e =
    let (nonneg, sum) = sum_exact limit need q.today_count range h.1 h.2 in
    let kept : leb_ℤ (q.today_count +i need) limit ≡ true = ground (arith, e, h.0, range) in
    let room : pos_part q.today_count + pos_part need ≤ pos_part limit =
      ground (arith, kept, nonneg, sum, range.0) in
    omega (arith, +ℤ_parts q.today_count need, h.1, range.2, range.0)

is_outside-IsOpenAt :
    (now : Time) (q : TaskQuota) (bad : Option WindowError)
    → q.window_err ≡ bad
    → is_outside now q ≡ false
    → IsOpenAt now q.window bad
unfolding is_outside contains
is_outside-IsOpenAt now q none p h = ground (arith, p, h)
is_outside-IsOpenAt now q (some e) p h = tt

-- What a wait may leave: the quota within its limit; and with no error, the need fits, and the window
-- is open at some round.
module _ {Err : Type 0} (env : QuotaEnv Err) (limit need : ℤ) (window : RunWindow)
    (bad : Option WindowError) where
  abbrev pub Grants : ℕ → Option Err → Waiting → Type 0
  Grants round (some e) w = IsInQuota limit window bad w.quota
  Grants round none w =
      IsInQuota limit window bad w.quota
      × (w.quota.today_count +ℤ need ≤ℤ limit)
      × IsOpenAt (env.now round) window bad

  abbrev pub RoundGrants : ℕ → Round Err → Type 0
  RoundGrants round (returns e w) = Grants round e w
  RoundGrants round (sleeps d w) = IsInQuota limit window bad w.quota

  abbrev pub WaitGrants : Waited Err → Type 0
  WaitGrants (waited e w) = (round : ℕ) × Grants round e w
  WaitGrants (still_waiting w) = IsInQuota limit window bad w.quota

  quota_tests-RoundGrants :
      (range : InRange limit need) (round : ℕ) (w : Waiting)
      → IsInQuota limit window bad w.quota
      → RoundGrants round (quota_tests env (env.now round) need w)
  unfolding quota_tests
  quota_tests-RoundGrants range round w h = elim (Bool-cases (is_outside (env.now round) w.quota)) [
    | inl out ↦ rw out (mark_quota_paused-IsInQuota limit window bad w h outside_window)
    | inr inside ↦ rw inside (elim (Bool-cases (is_used_up need w.quota)) [
      | inl used ↦ rw used (mark_quota_paused-IsInQuota limit window bad w h daily_quota)
      | inr fits ↦ rw fits (
          let open_now =
            subst (λ v. IsOpenAt (env.now round) v bad) h.3
              (is_outside-IsOpenAt (env.now round) w.quota bad h.4 inside) in
          let room = is_used_up-fits limit need window bad w.quota range h fits in
          elim (stays_paused need w.quota)
            as (λ b.
              RoundGrants round
                (if b then returns none w else returns none (mark_quota_running w))) [
                  | true ↦ (h, room, open_now)
                  | false ↦ (
                    mark_quota_running-IsInQuota limit window bad w h,
                    rw (mark_quota_running_count w) room,
                    open_now,
                  )
                ])
    ])
  ]

  quota_round-RoundGrants :
      (range : InRange limit need) (round : ℕ) (w : Waiting)
      → IsInQuota limit window bad w.quota
      → RoundGrants round (quota_round env round need w)
  unfolding quota_round
  quota_round-RoundGrants range round w h =
      let rolled =
        roll_day-IsInQuota (env.today_of (env.now round)) limit window bad w.quota range.0 h in
      tested (env.ctx_err round) (persist_day env round (env.today_of (env.now round)) w.quota)
        rolled
    where
      tested :
          (stopped failed : Option Err)
          → IsInQuota limit window bad (roll_day (env.today_of (env.now round)) w.quota)
          → RoundGrants round (elim stopped [
            | some e ↦ returns (some e) w
            | none ↦ elim failed [
              | some e ↦
                  returns
                    (some e)
                    (record w { quota = roll_day (env.today_of (env.now round)) w.quota })
              | none ↦ quota_tests env (env.now round) need (
                  warn_window
                    (record w { quota = roll_day (env.today_of (env.now round)) w.quota }))
            ]
          ])
      tested (some e) failed r = h
      tested none (some e) r = r
      tested none none r =
          quota_tests-RoundGrants range round _
            (subst (IsInQuota limit window bad) (sym (warn_window_quota _)) r)

  wait_rounds-WaitGrants :
      (range : InRange limit need) (fuel round : ℕ) (w : Waiting)
      → IsInQuota limit window bad w.quota
      → WaitGrants (wait_rounds env fuel round need w)
  unfolding wait_rounds
  wait_rounds-WaitGrants range zero round w h = h
  wait_rounds-WaitGrants range (suc fuel) round w h =
      after (quota_round env round need w) (quota_round-RoundGrants range round w h)
        (λ w' h'. wait_rounds-WaitGrants range fuel (suc round) w' h')
    where
      after :
          (r : Round Err)
          → RoundGrants round r
          → ((w' : Waiting)
              → IsInQuota limit window bad w'.quota
              → WaitGrants (wait_rounds env fuel (suc round) need w'))
          → WaitGrants (elim r [
            | returns e w' ↦ waited e w'
            | sleeps d w' ↦ wait_rounds env fuel (suc round) need w'
          ])
      after (returns e w') g later = (round, g)
      after (sleeps d w') g later = later w' g

  -- A wait for the quota, with a positive limit, a count from 0 to it, and a need whose sum with the
  -- limit does not wrap: where it returns without an error, the task's window is open at one of its
  -- rounds, if it is valid, and the count of the day with the need is within the limit. In any case
  -- the limit and the window stay, and the count is still from 0 to the limit.
  pub wait_for_quota-WaitGrants :
      (range : InRange limit need) (fuel : ℕ) (q : TaskQuota)
      → IsInQuota limit window bad q
      → WaitGrants (wait_for_quota env fuel need q)
  unfolding wait_for_quota at_least_zero
  wait_for_quota-WaitGrants range fuel q h =
      let same : at_least_zero need ≡ need = ground (arith, range.2) in
      rw same (wait_rounds-WaitGrants range fuel 0 _ h)
