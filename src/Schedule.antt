-- ===== src/Schedule.antt =====
-- internal/engine/scheduler.go: the schedule rules of a strategy and the slots that they open.
pub mod Rules
pub mod Pick
pub mod Opening
mod Tests
use tgvive.Prelude.Results.{ok, err, Result, ◌>>=◌, map_err}
use tgvive.Text.{Text}
use tgvive.Clock.{Time, minutes_of, time_at_minutes, next_day, date_at, day_of, zero_time}
use tgvive.Window.{TimeError, parse_hhmm}
use tgvive.Prelude.Int.{ℤ, ltb_ℤ, pos, leb_ℤ}
use tgvive.Prelude.{
  ℕ, Bool, if◌then◌else◌, Option, List, ◌∷◌, true, not, some, none, suc, leb, ltb, eqb, ◌&&◌, ◌||◌,
  [], false,
}

pub record ScheduleRule : Type 0 where
  pub start : Text
  pub end : Text
  pub limit : ℤ

pub record ParsedRule : Type 0 where
  pub start_min : ℕ
  pub end_min : ℕ
  pub limit : ℤ
  pub all_day : Bool
  pub cross_midnight : Bool

-- The rule at an index is skipped: its start or its end is no time.
pub data Warning : Type 0 where
  bad_start bad_end : ℕ → TimeError → Warning

pub parsed_rule : ℕ → ℕ → ℤ → ParsedRule
parsed_rule start end limit = record {
  start_min = start;
  end_min = end;
  limit = if ltb_ℤ limit (pos 0) then pos 0 else limit;
  all_day = eqb start end;
  cross_midnight = if eqb start end then false else ltb end start;
}

pub parse_rule : ℕ → ScheduleRule → Result Warning ParsedRule
parse_rule i r = do
  start ← map_err (bad_start i) (parse_hhmm r.start)
  end ← map_err (bad_end i) (parse_hhmm r.end)
  ok (parsed_rule start end r.limit)

-- A rule joins the rules, or its warning the warnings.
pub add_rule :
    Result Warning ParsedRule → List ParsedRule × List Warning → List ParsedRule × List Warning
add_rule (ok r) (rules, warns) = (r ∷ rules, warns)
add_rule (err w) (rules, warns) = (rules, w ∷ warns)

-- The loop of `parseScheduleRules` over the decoded rules, from an index on.
pub parse_rules_from : ℕ → List ScheduleRule → List ParsedRule × List Warning
parse_rules_from i [] = ([], [])
parse_rules_from i (r ∷ rs) = add_rule (parse_rule i r) (parse_rules_from (suc i) rs)

unfoldable pub contains : ParsedRule → Time → Bool
contains r now =
    if r.all_day
    then true
    else if not r.cross_midnight
    then leb r.start_min (minutes_of now) && ltb (minutes_of now) r.end_min
    else leb r.start_min (minutes_of now) || ltb (minutes_of now) r.end_min

unfoldable pub end_time : ParsedRule → Time → Time
end_time r now =
    if r.all_day
    then next_day (date_at now 0 0)
    else if not r.cross_midnight
    then time_at_minutes now r.end_min
    else if leb r.start_min (minutes_of now)
    then time_at_minutes (next_day now) r.end_min
    else time_at_minutes now r.end_min

unfoldable pub next_start : ParsedRule → Time → Time
next_start r now =
    if r.all_day
    then now
    else if not r.cross_midnight
    then if ltb (minutes_of now) r.start_min
      then time_at_minutes now r.start_min
      else time_at_minutes (next_day now) r.start_min
    else if leb r.end_min (minutes_of now) && ltb (minutes_of now) r.start_min
    then time_at_minutes now r.start_min
    else time_at_minutes (next_day now) r.start_min

-- A rule that takes part: its limit is positive and its slot is open.
unfoldable pub is_active : Time → ParsedRule → Bool
is_active now r = not (leb_ℤ r.limit (pos 0)) && contains r now

pub record Slot : Type 0 where
  pub rule_idx : ℕ
  pub slot_end : Time
  pub limit : ℤ

-- `if ruleIdx < 0 || end.Before(slotEnd)`
unfoldable pub better_slot : Slot → Option Slot → Option Slot
better_slot s none = some s
better_slot s (some best) = if ltb s.slot_end best.slot_end then some s else some best

-- The loop of `pickActiveSlot`, from an index on, with the best slot so far.
unfoldable pub pick_from : Time → ℕ → List ParsedRule → Option Slot → Option Slot
pick_from now idx [] best = best
pick_from now idx (r ∷ rs) best = pick_from now (suc idx) rs (
    if is_active now r
    then better_slot (record { rule_idx = idx; slot_end = end_time r now; limit = r.limit }) best
    else best)

unfoldable pub pick_active_slot : Time → List ParsedRule → Option Slot
pick_active_slot now rules = pick_from now 0 rules none

-- `if !ok || t.Before(next)`
pub earlier : Time → Option Time → Option Time
earlier t none = some t
earlier t (some next) = if ltb t next then some t else some next

-- The loop of `nextSlotStart`, with the earliest start so far.
pub next_from : Time → List ParsedRule → Option Time → Option Time
next_from now [] next = next
next_from now (r ∷ rs) next = next_from now rs (
    if leb_ℤ r.limit (pos 0) || eqb (next_start r now) zero_time
    then next
    else earlier (next_start r now) next)

unfoldable pub next_slot_start : Time → List ParsedRule → Option Time
next_slot_start now rules = next_from now rules none
