-- ===== src/Schedule/Tests.antt =====
-- Runs of the schedule rules of internal/engine/scheduler.go.
use tgvive.Schedule.{
  ParsedRule, ScheduleRule, contains, end_time, next_start, pick_active_slot, next_slot_start,
  parse_rules_from, Slot, parse_rule, pick_from, parsed_rule, better_slot, is_active, add_rule,
  next_from, earlier, Warning,
}
use tgvive.Prelude.{
  List, ◌*◌, All, false, ◌∷◌, ◌<◌, true, [], ◌+◌, arith, ◌≡◌, some, ◌≤◌, refl, IsIn,
}
use tgvive.Prelude.Int.{pos, negsuc}
use tgvive.Clock.{Time, minutes_of, day_ns, time_at_minutes, minute_ns, next_day}
use tgvive.Text.{text, trim_space, split_at, atoi}
use tgvive.Schedule.Rules.{IsRule}
use tgvive.Window.{parse_hhmm, TimeError}
use tgvive.Schedule.Opening.{next_slot_start_earliest}

-- 10:00-12:00 with 2 pulls, 11:00-11:30 with 5, and 22:30-06:15 with none.
abbrev written : List ScheduleRule
written =
    record { start = text "10:00"; end = text "12:00"; limit = pos 2 }
    ∷ record { start = text "11:00"; end = text "11:30"; limit = pos 5 }
    ∷ record { start = text "25:00"; end = text "11:30"; limit = pos 5 }
    ∷ record { start = text "22:30"; end = text "06:15"; limit = negsuc 3 }
    ∷ []

abbrev morning : ParsedRule
morning = record {
  start_min = 600;
  end_min = 720;
  limit = pos 2;
  all_day = false;
  cross_midnight = false;
}

abbrev break_time : ParsedRule
break_time = record {
  start_min = 660;
  end_min = 690;
  limit = pos 5;
  all_day = false;
  cross_midnight = false;
}

abbrev night : ParsedRule
night = record {
  start_min = 1350;
  end_min = 375;
  limit = pos 0;
  all_day = false;
  cross_midnight = true;
}

abbrev rules : List ParsedRule
rules = morning ∷ break_time ∷ night ∷ []

parses_rules : parse_rules_from 0 written ≡ (rules, Warning.bad_start 2 TimeError.out_of_range ∷ [])
unfolding parse_rules_from parse_rule parsed_rule add_rule parse_hhmm trim_space split_at atoi
parses_rules = refl

-- On the fourth day, at 11:15 and at 13:00.
abbrev quarter_past : Time
quarter_past = 3 * day_ns + 675 * minute_ns

abbrev at_one : Time
at_one = 3 * day_ns + 780 * minute_ns

abbrev short_slot : Slot
short_slot = record { rule_idx = 1; slot_end = 3 * day_ns + 690 * minute_ns; limit = pos 5 }

picks_the_shorter : pick_active_slot quarter_past rules ≡ some short_slot
unfolding pick_active_slot pick_from better_slot is_active contains end_time minutes_of
    time_at_minutes
picks_the_shorter = refl

rules-IsRule : All IsRule rules
rules-IsRule = (ground arith, (ground arith, (ground arith, tt)))

next_slot_start_earliest_example :
    (at_one < 4 * day_ns + 600 * minute_ns)
    × ((r : ParsedRule) × IsIn r rules × (is_active (4 * day_ns + 600 * minute_ns) r ≡ true))
    × ((u : Time)
        → at_one ≤ u
        → u < 4 * day_ns + 600 * minute_ns
        → All (λ r. is_active u r ≡ false) rules)
unfolding pick_active_slot pick_from better_slot next_slot_start next_from earlier next_start
    is_active contains end_time minutes_of time_at_minutes next_day
next_slot_start_earliest_example =
    next_slot_start_earliest at_one (4 * day_ns + 600 * minute_ns) rules rules-IsRule refl refl
