-- ===== src/Scheduler/Keys.antt =====
-- internal/engine/scheduler.go: the texts that name a slot and the rules of a task, by what they print.
-- What `buildSlotKey` prints: a date, and "all-day" or the two ends. `unset` is the empty text.
use tgvive.Prelude.{ℕ, Bool, List, true, eqb, false, if◌then◌else◌, ◌∷◌, ◌&&◌, [], ltb, ◌-◌}
use tgvive.Clock.{Time, day_of, minutes_of}
use tgvive.Text.{Text, text_same}
use tgvive.Schedule.{ParsedRule}
use tgvive.Prelude.Int.{ℤ, eqb_ℤ}
use tgvive.Window.{format_hhmm}

pub data SlotKey : Type 0 where
  unset : SlotKey
  whole_day : ℕ → SlotKey
  part_of_day : ℕ → Text → Text → SlotKey

unfoldable pub slot_key_same : SlotKey → SlotKey → Bool
slot_key_same unset unset = true
slot_key_same (whole_day d) (whole_day e) = eqb d e
slot_key_same (part_of_day d a b) (part_of_day e p q) = eqb d e && text_same a p && text_same b q
slot_key_same _ _ = false

abbrev pub is_unset : SlotKey → Bool
is_unset unset = true
is_unset _ = false

unfoldable pub build_slot_key : Time → ParsedRule → SlotKey
build_slot_key now r =
    if r.all_day
    then whole_day (day_of now)
    else part_of_day
        (if r.cross_midnight && ltb (minutes_of now) r.end_min then day_of now - 1 else day_of now)
        (format_hhmm r.start_min) (format_hhmm r.end_min)

-- What `scheduleRulesKey` prints of a rule: two minutes of the day and the limit.
pub record RuleKey : Type 0 where
  pub start_min : ℕ
  pub end_min : ℕ
  pub limit : ℤ

abbrev pub RulesKey : Type 0
RulesKey = List RuleKey

unfoldable pub schedule_rules_key : List ParsedRule → RulesKey
schedule_rules_key [] = []
schedule_rules_key (r ∷ rs) =
    record { start_min = r.start_min; end_min = r.end_min; limit = r.limit } ∷ schedule_rules_key rs

unfoldable pub rules_key_same : RulesKey → RulesKey → Bool
rules_key_same [] [] = true
rules_key_same (a ∷ s) (b ∷ t) =
    eqb a.start_min b.start_min
    && eqb a.end_min b.end_min
    && eqb_ℤ a.limit b.limit
    && rules_key_same s t
rules_key_same _ _ = false
