-- ===== src/Scheduler/Tests.antt =====
-- Runs of SchedulerEngine of internal/engine/scheduler.go.
use tgvive.Scheduler.Engine.{Tasks, reserve_pull, peek_pull, apply_rules}
use tgvive.Scheduler.Engine.Runs.{AllWithin, Call, Calls, Calls-AllWithin}
use tgvive.Schedule.{
  ParsedRule, pick_active_slot, contains, end_time, pick_from, better_slot, is_active,
}
use tgvive.Clock.{Time, day_ns, minute_ns, minutes_of, time_at_minutes}
use tgvive.Prelude.{◌∷◌, false, ◌*◌, [], ◌≡◌, ◌+◌, arith, some, refl, nat_eq}
use tgvive.Prelude.Int.{pos, ◌-ℤ◌}
use tgvive.Prelude.Map.{lookup, insert}
use tgvive.Scheduler.{
  reserve_state, new_state, ScheduleState, reserve_slot, take_tokens, slot_changed, remaining,
}
use tgvive.Scheduler.Engine.Pulls.{IsForetold, peek_pull-IsForetold}
use tgvive.Scheduler.Keys.{schedule_rules_key}
use tgvive.Scheduler.Within.{IsWithin}
use tgvive.Prelude.Int64.{◌-i◌, wrap64}

abbrev morning : ParsedRule
morning = record {
  start_min = 600;
  end_min = 720;
  limit = pos 2;
  all_day = false;
  cross_midnight = false;
}

abbrev at_eleven : Time
at_eleven = 3 * day_ns + 660 * minute_ns

-- Task 7 after its rules were registered, and after three tokens were asked for.
abbrev registered : Tasks
registered = (apply_rules 7 1 1 (morning ∷ []) (schedule_rules_key (morning ∷ [])) []).0

abbrev asked : Tasks
asked = (reserve_pull at_eleven 7 (pos 3) registered).0

no_tasks-AllWithin : AllWithin []
unfolding lookup
no_tasks-AllWithin = record { at_task = λ task st e. cc }

Calls-AllWithin_example : AllWithin asked
Calls-AllWithin_example =
    Calls-AllWithin
      (Calls.then
        (Calls.then Calls.start
          (Call.apply 7 1 1 (morning ∷ []) (schedule_rules_key (morning ∷ [])) (omega arith, tt)))
        (Call.reserve at_eleven 7 (pos 3)))
      no_tasks-AllWithin

-- The task of one rule, with one token used and one reserved in no slot.
abbrev busy : ScheduleState
busy = record new_state {
  rules = morning ∷ [];
  active_rule_idx = some 0;
  slot_end = 3 * day_ns + 720 * minute_ns;
  limit = pos 2;
  used = pos 1;
}

busy-IsWithin : IsWithin busy
busy-IsWithin = record {
  rules_fit = (omega arith, tt);
  limit_fits = omega arith;
  used_fits = omega arith;
  reserved_fits = omega arith;
  quota = λ p. omega arith;
}

grants_one : (reserve_state at_eleven (pos 3) busy).granted ≡ pos 1
unfolding reserve_state reserve_slot take_tokens slot_changed remaining pick_active_slot contains
    end_time minutes_of time_at_minutes ◌-i◌ ◌-ℤ◌ wrap64 pick_from better_slot is_active
grants_one = refl

peek_pull-IsForetold_example :
    IsForetold
      (pos 3)
      7
      (peek_pull at_eleven 7 (insert 7 busy []))
      (reserve_pull at_eleven 7 (pos 3) (insert 7 busy []))
peek_pull-IsForetold_example =
    peek_pull-IsForetold at_eleven 7 (pos 3) (insert 7 busy []) (omega arith)
