-- ===== src/Scheduler/Engine/Runs.antt =====
-- The quota of each task over sequences of the engine's methods.
use tgvive.Scheduler.Engine.{
  Tasks, reserve_pull, peek_pull, commit_pull, release_pull, apply_rules, compute_next_run,
  with_rules,
}
use tgvive.Scheduler.Engine.Counters.{
  apply_state-IsWithin, next_run_state-IsWithin, commit_state-IsWithin, release_state-IsWithin,
}
use tgvive.Scheduler.Within.{IsWithin, IsLimit, reserve_state-IsWithin}
use tgvive.Prelude.{
  ℕ, ◌≡◌, Bool-cases, some, ◌==◌, List, inl, arith, nat_eq, subst, All, inr, eqb, Option-cases,
  ◌||◌,
}
use tgvive.Clock.{Time}
use tgvive.Scheduler.{ScheduleState}
use tgvive.Prelude.Int.{ℤ, leb_ℤ, pos}
use tgvive.Prelude.Map.{lookup, insert, lookup-insert}
use tgvive.Prelude.Int64.{InInt64}
use tgvive.Scheduler.Keys.{RulesKey}
use tgvive.Schedule.{ParsedRule}
use tgvive.Scheduler.Peek.{peek_state-IsWithin}

pub record AllWithin (tasks : Tasks) : Type 0 where
  pub at_task : (task : ℕ) (st : ScheduleState) → lookup task tasks ≡ some st → IsWithin st

-- One call of a method, with any arguments that its Go types hold. syncPersistedState is not among
-- them: it takes over the count of the task's row, whatever is reserved.
pub data Call (tasks : Tasks) : Tasks → Type 0 where
  reserve : (now : Time) (task : ℕ) (need : ℤ) → Call tasks (reserve_pull now task need tasks).0
  peek : (now : Time) (task : ℕ) → Call tasks (peek_pull now task tasks).0
  commit : (task : ℕ) (delta : ℤ) → InInt64 delta → Call tasks (commit_pull task delta tasks).0
  release : (task : ℕ) (delta : ℤ) → InInt64 delta → Call tasks (release_pull task delta tasks)
  apply :
      (task user strategy : ℕ) (rules : List ParsedRule) (key : RulesKey)
      → All (λ r. IsLimit r.limit) rules
      → Call tasks (apply_rules task user strategy rules key tasks).0
  next_run : (task : ℕ) (now : Time) → Call tasks (compute_next_run task now tasks).0

pub data Calls (tasks : Tasks) : Tasks → Type 0 where
  start : Calls tasks tasks
  then : {mid last : Tasks} → Calls tasks mid → Call mid last → Calls tasks last

insert-AllWithin :
    (task : ℕ) (st : ScheduleState) (tasks : Tasks)
    → AllWithin tasks
    → IsWithin st
    → AllWithin (insert task st tasks)
insert-AllWithin task st tasks h v = record {
  at_task = λ t s e. elim (Bool-cases (task == t)) [
    | inl q ↦ subst IsWithin (ground (arith, lookup-insert t task st tasks)) v
    | inr q ↦ h.at_task t s (ground (arith, lookup-insert t task st tasks))
  ];
}

with_rules-lookup :
    (task : ℕ) (tasks : Tasks) (st : ScheduleState)
    → with_rules task tasks ≡ some st
    → lookup task tasks ≡ some st
unfolding with_rules
with_rules-lookup task tasks st e = ground arith

module _ (task : ℕ) (tasks : Tasks) (h : AllWithin tasks) where
  reserve_pull-AllWithin : (now : Time) (need : ℤ) → AllWithin (reserve_pull now task need tasks).0
  unfolding reserve_pull
  reserve_pull-AllWithin now need = elim (Bool-cases (leb_ℤ need (pos 0))) [
    | inl q ↦ rw q h
    | inr q ↦ elim (Bool-cases (eqb task 0)) [
      | inl z ↦ rw (q, z) h
      | inr z ↦ elim (Option-cases (with_rules task tasks)) [
        | inl w ↦ rw (q, z, w, reserve_pull) h
        | inr (st, w) ↦
            rw (q, z, w, reserve_pull)
              (insert-AllWithin task _ tasks h
                (reserve_state-IsWithin now need st
                  (h.at_task task st (with_rules-lookup task tasks st w)) (ground arith)).0)
      ]
    ]
  ]

  peek_pull-AllWithin : (now : Time) → AllWithin (peek_pull now task tasks).0
  unfolding peek_pull
  peek_pull-AllWithin now = elim (Bool-cases (eqb task 0)) [
    | inl z ↦ rw z h
    | inr z ↦ elim (Option-cases (with_rules task tasks)) [
      | inl w ↦ rw (z, w, peek_pull) h
      | inr (st, w) ↦
          rw (z, w, peek_pull)
            (insert-AllWithin task _ tasks h
              (peek_state-IsWithin now st (h.at_task task st (with_rules-lookup task tasks st w))))
    ]
  ]

  next_run-AllWithin : (now : Time) → AllWithin (compute_next_run task now tasks).0
  unfolding compute_next_run
  next_run-AllWithin now = elim (Bool-cases (eqb task 0)) [
    | inl z ↦ rw z h
    | inr z ↦ elim (Option-cases (with_rules task tasks)) [
      | inl w ↦ rw (z, w, compute_next_run) h
      | inr (st, w) ↦
          rw (z, w, compute_next_run)
            (insert-AllWithin task _ tasks h (
              next_run_state-IsWithin now st
                (h.at_task task st (with_rules-lookup task tasks st w))))
    ]
  ]

  commit_pull-AllWithin : (delta : ℤ) → InInt64 delta → AllWithin (commit_pull task delta tasks).0
  unfolding commit_pull
  commit_pull-AllWithin delta f = elim (Bool-cases (leb_ℤ delta (pos 0) || eqb task 0)) [
    | inl q ↦ rw q h
    | inr q ↦ elim (Option-cases (lookup task tasks)) [
      | inl w ↦ rw (q, w, commit_pull) h
      | inr (st, w) ↦
          rw (q, w, commit_pull)
            (insert-AllWithin task _ tasks h
              (commit_state-IsWithin delta st (ground arith) f (h.at_task task st w)))
    ]
  ]

  release_pull-AllWithin : (delta : ℤ) → InInt64 delta → AllWithin (release_pull task delta tasks)
  unfolding release_pull
  release_pull-AllWithin delta f = elim (Bool-cases (leb_ℤ delta (pos 0) || eqb task 0)) [
    | inl q ↦ rw q h
    | inr q ↦ elim (Option-cases (lookup task tasks)) [
      | inl w ↦ rw (q, w, release_pull) h
      | inr (st, w) ↦
          rw (q, w, release_pull)
            (insert-AllWithin task _ tasks h
              (release_state-IsWithin delta st (ground arith) f (h.at_task task st w)))
    ]
  ]

  apply_rules-AllWithin :
      (user strategy : ℕ) (rules : List ParsedRule) (key : RulesKey)
      → All (λ r. IsLimit r.limit) rules
      → AllWithin (apply_rules task user strategy rules key tasks).0
  unfolding apply_rules
  apply_rules-AllWithin user strategy rules key fit = elim (Bool-cases (eqb task 0)) [
    | inl z ↦ rw z h
    | inr z ↦ rw z (
        insert-AllWithin task _ tasks h (
          apply_state-IsWithin user strategy rules key (lookup task tasks) fit
            (λ st e. h.at_task task st e)))
  ]

Call-AllWithin : {tasks next : Tasks} → Call tasks next → AllWithin tasks → AllWithin next
Call-AllWithin {tasks = t} (reserve now task need) h = reserve_pull-AllWithin task t h now need
Call-AllWithin {tasks = t} (peek now task) h = peek_pull-AllWithin task t h now
Call-AllWithin {tasks = t} (commit task delta f) h = commit_pull-AllWithin task t h delta f
Call-AllWithin {tasks = t} (release task delta f) h = release_pull-AllWithin task t h delta f
Call-AllWithin {tasks = t} (apply task user strategy rules key fit) h =
    apply_rules-AllWithin task t h user strategy rules key fit
Call-AllWithin {tasks = t} (next_run task now) h = next_run-AllWithin task t h now

-- From a map whose tasks are all within their quotas, after any sequence of calls of ReservePull,
-- PeekPull, CommitPull, ReleasePull, applyRules and computeNextRun, with no syncPersistedState among
-- them, every task is: its counters are counts, and used and reserved tokens together are within the
-- limit of its slot whenever any token is reserved.
pub Calls-AllWithin : {tasks last : Tasks} → Calls tasks last → AllWithin tasks → AllWithin last
Calls-AllWithin start h = h
Calls-AllWithin (then cs c) h = Call-AllWithin c (Calls-AllWithin cs h)
