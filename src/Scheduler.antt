-- ===== src/Scheduler.antt =====
-- internal/engine/scheduler.go: SchedulerEngine, the pull quota of each task in its active slot. The
-- mutex makes each method one step; the clock's reading is an argument, and what a method writes to
-- the database is a part of its result. An active rule index of -1 is `none`.
pub mod Keys
pub mod Engine
pub mod Within
pub mod Peek
mod Tests
use tgvive.Scheduler.Keys.{SlotKey, unset, RulesKey, build_slot_key, is_unset}
use tgvive.Prelude.Int64.{◌+i◌, ◌-i◌}
use tgvive.Prelude.Map.{Map, lookup, insert}
use tgvive.Text.{Text, text_same}
use tgvive.Clock.{Time, zero_time, day_of, minutes_of}
use tgvive.Window.{format_hhmm}
use tgvive.Schedule.{ParsedRule, Slot, pick_active_slot, next_slot_start}
use tgvive.Prelude.{
  ℕ, Bool, if◌then◌else◌, List, [], Option, get_elem?, some, none, true, ◌&&◌, ◌∷◌, false, not, eqb,
  ltb, ◌||◌, ◌-◌,
}
use tgvive.Prelude.Int.{ℤ, pos, leb_ℤ, eqb_ℤ, ltb_ℤ, negsuc}
use tgvive.Scheduler.Keys.{slot_key_same}

pub record ScheduleState : Type 0 where
  pub user_id : ℕ
  pub strategy_id : ℕ
  pub rules : List ParsedRule
  pub rules_key : RulesKey
  pub active_rule_idx : Option ℕ
  pub slot_end : Time
  pub limit : ℤ
  pub used : ℤ
  pub reserved : ℤ
  pub current_slot_key : SlotKey
  pub next_run : Time

-- &taskScheduleState{activeRuleIdx: -1}
abbrev pub new_state : ScheduleState
new_state = record {
  user_id = 0;
  strategy_id = 0;
  rules = [];
  rules_key = [];
  active_rule_idx = none;
  slot_end = zero_time;
  limit = pos 0;
  used = pos 0;
  reserved = pos 0;
  current_slot_key = unset;
  next_run = zero_time;
}

abbrev idx_same : Option ℕ → ℕ → Bool
idx_same none i = false
idx_same (some j) i = eqb j i

-- `st.activeRuleIdx != idx || !st.slotEnd.Equal(end)`
pub slot_changed : Slot → ScheduleState → Bool
slot_changed slot st =
    not (idx_same st.active_rule_idx slot.rule_idx) || not (eqb st.slot_end slot.slot_end)

pub new_key : Time → Slot → ScheduleState → SlotKey
new_key now slot st = elim (get_elem? st.rules slot.rule_idx) [
  | none ↦ unset
  | some r ↦ build_slot_key now r
]

-- The switch to a slot: its counters start anew if its key is another. The key to persist comes back.
pub enter_slot : Time → Slot → ScheduleState → ScheduleState × Option SlotKey
enter_slot now slot st =
    let key = new_key now slot st in
    let st' = record st {
      active_rule_idx = some slot.rule_idx;
      slot_end = slot.slot_end;
      limit = slot.limit;
      next_run = zero_time;
    } in
    if not (is_unset key) && not (slot_key_same key st.current_slot_key)
    then (record st' { current_slot_key = key; used = pos 0; reserved = pos 0 }, some key)
    else (st', none)

abbrev pub settle : Time → Slot → ScheduleState → ScheduleState × Option SlotKey
settle now slot st = if slot_changed slot st then enter_slot now slot st else (st, none)

-- The instant at which a task may ask again, while its reservations hold it in its slot.
abbrev pub held_until : Slot → ScheduleState → Time
held_until slot st = if eqb st.slot_end zero_time then slot.slot_end else st.slot_end

pub record Reserved : Type 0 where
  pub state : ScheduleState
  pub granted : ℤ
  pub next : Time
  pub reset : Option SlotKey

pub remaining : ScheduleState → ℤ
remaining st = st.limit -i st.used -i st.reserved

pub take_tokens : ℤ → ScheduleState × Option SlotKey → Reserved
take_tokens need (st, reset) =
    if leb_ℤ (remaining st) (pos 0)
    then record {
      state = record st { next_run = st.slot_end };
      granted = pos 0;
      next = st.slot_end;
      reset = reset;
    }
    else (let granted = if ltb_ℤ (remaining st) need then remaining st else need in
        record {
          state = record st { reserved = st.reserved +i granted };
          granted = granted;
          next = zero_time;
          reset = reset;
        })

-- ReservePull with an active slot.
pub reserve_slot : Time → ℤ → ScheduleState → Slot → Reserved
reserve_slot now need st slot =
    if slot_changed slot st && ltb_ℤ (pos 0) st.reserved
    then record {
      state = record st { next_run = held_until slot st };
      granted = pos 0;
      next = held_until slot st;
      reset = none;
    }
    else take_tokens need (settle now slot st)

-- ReservePull without one: 0 tokens until the next slot, or no bound if there is none.
pub reserve_idle : Time → ℤ → ScheduleState → Reserved
reserve_idle now need st = elim (next_slot_start now st.rules) [
  | some next ↦ record {
    state = record st { next_run = next };
    granted = pos 0;
    next = next;
    reset = none;
  }
  | none ↦ record { state = st; granted = need; next = zero_time; reset = none }
]

pub reserve_state : Time → ℤ → ScheduleState → Reserved
reserve_state now need st = elim (pick_active_slot now st.rules) [
  | none ↦ reserve_idle now need st
  | some slot ↦ reserve_slot now need st slot
]

pub record Peeked : Type 0 where
  pub state : ScheduleState
  pub allowed : Bool
  pub left : ℤ
  pub next : Time
  pub reset : Option SlotKey

pub peek_tokens : ScheduleState × Option SlotKey → Peeked
peek_tokens (st, reset) =
    if leb_ℤ (remaining st) (pos 0)
    then record {
      state = record st { next_run = st.slot_end };
      allowed = false;
      left = pos 0;
      next = st.slot_end;
      reset = reset;
    }
    else record { state = st; allowed = true; left = remaining st; next = zero_time; reset = reset }

pub peek_slot : Time → ScheduleState → Slot → Peeked
peek_slot now st slot =
    if slot_changed slot st && ltb_ℤ (pos 0) st.reserved
    then record {
      state = record st { next_run = held_until slot st };
      allowed = false;
      left = pos 0;
      next = held_until slot st;
      reset = none;
    }
    else peek_tokens (settle now slot st)

pub peek_idle : Time → ScheduleState → Peeked
peek_idle now st = elim (next_slot_start now st.rules) [
  | some next ↦ record {
    state = record st { next_run = next };
    allowed = false;
    left = pos 0;
    next = next;
    reset = none;
  }
  | none ↦ record { state = st; allowed = true; left = negsuc 0; next = zero_time; reset = none }
]

pub peek_state : Time → ScheduleState → Peeked
peek_state now st = elim (pick_active_slot now st.rules) [
  | none ↦ peek_idle now st
  | some slot ↦ peek_slot now st slot
]
