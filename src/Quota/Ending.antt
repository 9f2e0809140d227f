-- ===== src/Quota/Ending.antt =====
-- The wait for the quota ends on a day that it has not seen before.
use tgvive.Prelude.{
  ℕ, ◌<◌, arith, subst, Bool, ◌≡◌, if◌then◌else◌, true, false, ◌++◌, not, Option, some, ◌∷◌, none,
  [], ◌^◌, refl,
}
use tgvive.Quota.{
  paused, QuotaEnv, Round, Waiting, returns, sleeps, quota_round, TaskQuota, is_new_day,
  mark_quota_paused, quota_tests, roll_day, PauseReason, eqb_reason, is_outside, is_used_up,
  stays_paused, warn_window, mark_quota_running, wait_for_quota, at_least_zero, persist_day,
}
use tgvive.Prelude.Int.{ℤ, pos, neg_part, pos_part, ◌≤ℤ◌, int_laws, +ℤ_parts}
use tgvive.Text.{Text, text_same, trim_space}
use tgvive.Clock.{Time}
use tgvive.Quota.Wait.{warn_window_quota}
use tgvive.Prelude.Int64.{+i_exact}
use tgvive.Quota.Rounds.{Keeps, IsReturn, HasReturned, wait_rounds-ends}

-- A wait until a day that has not been seen.
module _ {Err : Type 0} (env : QuotaEnv Err) (need : ℤ) (q : TaskQuota) (day : Text) where
  -- The quota of a wait that has not come to the day.
  abbrev IsBefore : Waiting → Type 0
  IsBefore w =
      (is_new_day day w.quota ≡ true)
      × (w.quota.daily_limit ≡ q.daily_limit)
      × (w.quota.window ≡ q.window)
      × (w.quota.window_err ≡ q.window_err)

  mark_quota_paused-IsBefore :
      (reason : PauseReason) (w : Waiting) → IsBefore w → IsBefore (mark_quota_paused reason w)
  unfolding mark_quota_paused is_new_day
  mark_quota_paused-IsBefore reason w h =
      elim (eqb_reason w.quota.paused_reason reason)
        as (λ b. IsBefore (
          if b then w else record w {
            quota = record w.quota { paused_reason = reason };
            changes = w.changes ++ paused reason ∷ [];
          })) [ true ↦ h | false ↦ h ]

  sleeps-Keeps : (d : ℕ) (w : Waiting) → IsBefore w → Keeps env need IsBefore (sleeps d w)
  unfolding Keeps
  sleeps-Keeps d w h = h

  returns-Keeps : (e : Option Err) (w : Waiting) → Keeps env need IsBefore (returns e w)
  unfolding Keeps
  returns-Keeps e w = tt

  if-Keeps :
      (b : Bool) (x y : Round Err)
      → Keeps env need IsBefore x
      → Keeps env need IsBefore y
      → Keeps env need IsBefore (if b then x else y)
  if-Keeps true x y h k = h
  if-Keeps false x y h k = k

  quota_tests-Keeps :
      (now : Time) (w : Waiting) → IsBefore w → Keeps env need IsBefore (quota_tests env now need w)
  unfolding quota_tests
  quota_tests-Keeps now w h =
      search (if-Keeps, sleeps-Keeps, returns-Keeps, mark_quota_paused-IsBefore, h)

  roll_day-IsBefore :
      (today : Text) (w : Waiting)
      → text_same (trim_space today) day ≡ false
      → IsBefore w
      → IsBefore (record w { quota = roll_day today w.quota })
  unfolding roll_day is_new_day
  roll_day-IsBefore today w other h =
      elim (not (text_same (trim_space w.quota.today_date) today))
        as (λ b. IsBefore (record w {
          quota = if b then record w.quota { today_date = today; today_count = pos 0 } else w.quota;
        })) [ true ↦ (ground (arith, other), h.1, h.2, h.3) | false ↦ h ]

  quota_round-Keeps :
      (round : ℕ) (w : Waiting)
      → text_same (trim_space (env.today_of (env.now round))) day ≡ false
      → IsBefore w
      → Keeps env need IsBefore (quota_round env round need w)
  unfolding quota_round Keeps
  quota_round-Keeps round w other h =
      tested (env.ctx_err round) (persist_day env round (env.today_of (env.now round)) w.quota)
        (roll_day-IsBefore (env.today_of (env.now round)) w other h)
    where
      tested :
          (stopped failed : Option Err)
          → IsBefore (record w { quota = roll_day (env.today_of (env.now round)) w.quota })
          → Keeps env need IsBefore (elim stopped [
            | some e ↦ returns (some e) w
            | none ↦ elim failed [
              | some e ↦
                  returns
                    (some e)
                    (record w { quota = roll_day (env.today_of (env.now round)) w.quota })
              | none ↦ quota_tests env (env.now round) need (
                  warn_window
                    (record w { quota = roll_day (env.today_of (env.now round)) w.quota }))
            ]
          ])
      tested (some e) failed r = tt
      tested none (some e) r = tt
      tested none none r = quota_tests-Keeps (env.now round) _ (
          rw
            (warn_window_quota
              (record w { quota = roll_day (env.today_of (env.now round)) w.quota }))
            r)

  -- On the day, the window is open and the whole limit is left.
  quota_tests-IsReturn :
      (now : Time) (w : Waiting)
      → is_outside now w.quota ≡ false
      → is_used_up need w.quota ≡ false
      → IsReturn env need (quota_tests env now need w)
  unfolding quota_tests
  quota_tests-IsReturn now w inside fits =
      rw (inside, fits)
        (elim (stays_paused need w.quota)
          as (λ b.
            IsReturn env need (if b then returns none w else returns none (mark_quota_running w))) [
              | true ↦ tt
              | false ↦ tt
            ])

  roll_day_fresh :
      (w : Waiting)
      → IsBefore w
      → roll_day day w.quota ≡ record w.quota { today_date = day; today_count = pos 0 }
  unfolding roll_day
  roll_day_fresh w h = rw (h.0) refl

  same_window :
      (now : Time) (w : Waiting)
      → IsBefore w
      → is_outside now q ≡ false
      → is_outside now (record w.quota { today_date = day; today_count = pos 0 }) ≡ false
  unfolding is_outside
  same_window now w h inside = ground (arith, h.2, h.3, inside)

  zero_fits :
      (w : Waiting)
      → IsBefore w
      → neg_part need ≡ 0
      → pos_part need < 2 ^ 63
      → need ≤ℤ q.daily_limit
      → is_used_up need (record w.quota { today_date = day; today_count = pos 0 }) ≡ false
  unfolding is_used_up
  zero_fits w h nonneg small fits =
      rw (h.1, +i_exact (pos 0) need (omega int_laws))
        (ground (arith, +ℤ_parts (pos 0) need, fits, nonneg))

  -- The round on the day.
  quota_round-IsReturn :
      (round : ℕ) (w : Waiting)
      → day ≡ env.today_of (env.now round)
      → is_outside (env.now round) q ≡ false
      → neg_part need ≡ 0
      → pos_part need < 2 ^ 63
      → need ≤ℤ q.daily_limit
      → IsBefore w
      → IsReturn env need (quota_round env round need w)
  unfolding quota_round
  quota_round-IsReturn round w that_day inside nonneg small fits h =
      tested (env.ctx_err round) (persist_day env round (env.today_of (env.now round)) w.quota)
        (rw (← that_day) (roll_day_fresh w h))
    where
      tested :
          (stopped failed : Option Err)
          → roll_day (env.today_of (env.now round)) w.quota
            ≡ record w.quota { today_date = day; today_count = pos 0 }
          → IsReturn env need (elim stopped [
            | some e ↦ returns (some e) w
            | none ↦ elim failed [
              | some e ↦
                  returns
                    (some e)
                    (record w { quota = roll_day (env.today_of (env.now round)) w.quota })
              | none ↦ quota_tests env (env.now round) need (
                  warn_window
                    (record w { quota = roll_day (env.today_of (env.now round)) w.quota }))
            ]
          ])
      tested (some e) failed r = tt
      tested none (some e) r = tt
      tested none none r =
          let v = record w { quota = roll_day (env.today_of (env.now round)) w.quota } in
          quota_tests-IsReturn (env.now round) (warn_window v)
            (rw (warn_window_quota v, r) (same_window (env.now round) w h inside))
            (rw (warn_window_quota v, r) (zero_fits w h nonneg small fits))

  -- A wait for the quota has returned after a round whose date is one that the quota and the earlier
  -- rounds do not have, at which the task is not outside its window, if the need is at least 0, fits
  -- 64 bits and is within the daily limit.
  pub wait_for_quota-ends :
      (ahead fuel : ℕ)
      → ahead < fuel
      → day ≡ env.today_of (env.now ahead)
      → ((round : ℕ)
          → round < ahead
          → text_same (trim_space (env.today_of (env.now round))) day ≡ false)
      → is_new_day day q ≡ true
      → is_outside (env.now ahead) q ≡ false
      → neg_part need ≡ 0
      → pos_part need < 2 ^ 63
      → need ≤ℤ q.daily_limit
      → HasReturned env need (wait_for_quota env fuel need q)
  unfolding wait_for_quota at_least_zero
  wait_for_quota-ends ahead fuel enough that_day others before inside nonneg small fits =
      let same : at_least_zero need ≡ need = ground (arith, nonneg) in
      rw same (
        wait_rounds-ends env need IsBefore ahead fuel 0 _ enough
          (λ k v less p.
            subst (λ n. Keeps env need IsBefore (quota_round env n need v)) (omega arith)
              (quota_round-Keeps k v (others k less) p))
          (λ v p.
            subst (λ n. IsReturn env need (quota_round env n need v)) (omega arith)
              (quota_round-IsReturn ahead v that_day inside nonneg small fits p))
          (before, refl, refl, refl))
