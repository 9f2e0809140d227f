-- ===== src/Scheduler/Engine.antt =====
-- internal/engine/scheduler.go: the other methods of SchedulerEngine on the state of one task, and
-- all of them on the map of tasks.
pub mod Counters
pub mod Runs
pub mod Pulls
use tgvive.Scheduler.Keys.{SlotKey, RulesKey, unset, rules_key_same, is_unset, slot_key_same}
use tgvive.Scheduler.{
  ScheduleState, new_state, Reserved, reserve_state, Peeked, peek_state, slot_changed, enter_slot,
}
use tgvive.Prelude.{
  ℕ, List, if◌then◌else◌, Option, Bool, eqb, none, some, length, true, false, not, ◌&&◌, ◌||◌,
  nat_eq,
}
use tgvive.Prelude.Int.{ℤ, ltb_ℤ, leb_ℤ, pos, eqb_ℤ, negsuc}
use tgvive.Clock.{Time, zero_time}
use tgvive.Prelude.Map.{Map, lookup, insert}
use tgvive.Schedule.{Slot, next_slot_start, pick_active_slot, ParsedRule}
use tgvive.Prelude.Int64.{◌-i◌, ◌+i◌}

-- applyRules on the state of a task, and whether the persisted counters are reset.
pub apply_state : ℕ → ℕ → List ParsedRule → RulesKey → Option ScheduleState → ScheduleState × Bool
apply_state user strategy rules key old =
    let st : ScheduleState = elim old [ none ↦ new_state | some s ↦ s ] in
    let changed =
      not (eqb st.user_id user)
      || not (eqb st.strategy_id strategy)
      || not (rules_key_same st.rules_key key) in
    let persist_reset : Bool = elim old [ none ↦ false | some s ↦ changed ] in
    let st' =
      if changed
      then record st {
        active_rule_idx = none;
        used = pos 0;
        reserved = pos 0;
        current_slot_key = if persist_reset then unset else st.current_slot_key;
        slot_end = zero_time;
        limit = pos 0;
        next_run = zero_time;
      }
      else st in
    (
      record st' { user_id = user; strategy_id = strategy; rules = rules; rules_key = key },
      persist_reset,
    )

-- syncPersistedState
pub sync_state : SlotKey → ℤ → ScheduleState → ScheduleState
sync_state key count st =
    if ltb_ℤ (pos 0) st.reserved
      && not (is_unset st.current_slot_key)
      && not (is_unset key)
      && not (slot_key_same key st.current_slot_key)
    then st
    else record st { current_slot_key = key; used = if ltb_ℤ count (pos 0) then pos 0 else count }

-- `if st.reserved > 0 { st.reserved -= delta; if st.reserved < 0 { st.reserved = 0 } }`
pub give_back : ℤ → ℤ → ℤ
give_back delta reserved =
    if ltb_ℤ (pos 0) reserved
    then (if ltb_ℤ (reserved -i delta) (pos 0) then pos 0 else reserved -i delta)
    else reserved

-- CommitPull, and what it persists.
pub commit_state : ℤ → ScheduleState → ScheduleState × Option (SlotKey × ℤ)
commit_state delta st =
    if eqb (length st.rules) 0 || leb_ℤ st.limit (pos 0) || is_unset st.current_slot_key
    then (st, none)
    else (let sum = st.used +i delta in
        let used = if ltb_ℤ sum (pos 0) then pos 0 else sum in
        (
          record st { reserved = give_back delta st.reserved; used = used },
          some (st.current_slot_key, used),
        ))

-- ReleasePull
pub release_state : ℤ → ScheduleState → ScheduleState
release_state delta st = record st { reserved = give_back delta st.reserved }

pub record NextRun : Type 0 where
  pub state : ScheduleState
  pub next : Time
  pub reset : Option SlotKey

-- computeNextRun with an active slot.
pub next_run_slot : Time → ScheduleState → Slot → NextRun
next_run_slot now st slot =
    if slot_changed slot st
    then if eqb_ℤ st.reserved (pos 0)
      then (let (st', reset) = enter_slot now slot st in
          record { state = st'; next = zero_time; reset = reset })
      else record { state = st; next = zero_time; reset = none }
    else if leb_ℤ st.limit (pos 0)
    then record { state = record st { next_run = zero_time }; next = zero_time; reset = none }
    else if leb_ℤ st.limit st.used
    then record { state = record st { next_run = st.slot_end }; next = st.slot_end; reset = none }
    else record { state = record st { next_run = zero_time }; next = zero_time; reset = none }

pub next_run_idle : Time → ScheduleState → NextRun
next_run_idle now st =
    let next : Time = elim (next_slot_start now st.rules) [ none ↦ zero_time | some t ↦ t ] in
    record { state = record st { next_run = next }; next = next; reset = none }

pub next_run_state : Time → ScheduleState → NextRun
next_run_state now st = elim (pick_active_slot now st.rules) [
  | none ↦ next_run_idle now st
  | some slot ↦ next_run_slot now st slot
]

-- PeekWindow on the rules of a task.
pub window_state : Time → List ParsedRule → Bool × Time
window_state now rules = elim (pick_active_slot now rules) [
  | some slot ↦ (true, zero_time)
  | none ↦ elim (next_slot_start now rules) [ some t ↦ (false, t) | none ↦ (true, zero_time) ]
]

abbrev pub Tasks : Type 0
Tasks = Map ℕ ScheduleState

-- The state of a task that has rules: a method looks no further at any other.
pub with_rules : ℕ → Tasks → Option ScheduleState
with_rules task tasks = elim (lookup task tasks) [
  | none ↦ none
  | some st ↦ if eqb (length st.rules) 0 then none else some st
]

pub reserve_pull : Time → ℕ → ℤ → Tasks → Tasks × ℤ × Time × Option SlotKey
reserve_pull now task need tasks =
    if leb_ℤ need (pos 0)
    then (tasks, pos 0, zero_time, none)
    else if eqb task 0
    then (tasks, need, zero_time, none)
    else elim (with_rules task tasks) [
      | none ↦ (tasks, need, zero_time, none)
      | some st ↦
          (let r = reserve_state now need st in
            (insert task r.state tasks, r.granted, r.next, r.reset))
    ]

pub peek_pull : Time → ℕ → Tasks → Tasks × Bool × ℤ × Time × Option SlotKey
peek_pull now task tasks =
    if eqb task 0 then (tasks, true, negsuc 0, zero_time, none) else elim (with_rules task tasks) [
      | none ↦ (tasks, true, negsuc 0, zero_time, none)
      | some st ↦
          (let p = peek_state now st in
            (insert task p.state tasks, p.allowed, p.left, p.next, p.reset))
    ]

pub peek_window : Time → ℕ → Tasks → Bool × Time
peek_window now task tasks =
    if eqb task 0 then (true, zero_time) else elim (with_rules task tasks) [
      | none ↦ (true, zero_time)
      | some st ↦ window_state now st.rules
    ]

pub commit_pull : ℕ → ℤ → Tasks → Tasks × Option (SlotKey × ℤ)
commit_pull task delta tasks =
    if leb_ℤ delta (pos 0) || eqb task 0 then (tasks, none) else elim (lookup task tasks) [
      | none ↦ (tasks, none)
      | some st ↦ (let (st', saved) = commit_state delta st in (insert task st' tasks, saved))
    ]

pub release_pull : ℕ → ℤ → Tasks → Tasks
release_pull task delta tasks =
    if leb_ℤ delta (pos 0) || eqb task 0 then tasks else elim (lookup task tasks) [
      | none ↦ tasks
      | some st ↦ insert task (release_state delta st) tasks
    ]

pub sync_persisted_state : ℕ → SlotKey → ℤ → Tasks → Tasks
sync_persisted_state task key count tasks = if eqb task 0 then tasks else elim (lookup task tasks) [
  | none ↦ tasks
  | some st ↦ insert task (sync_state key count st) tasks
]

pub apply_rules : ℕ → ℕ → ℕ → List ParsedRule → RulesKey → Tasks → Tasks × Bool
apply_rules task user strategy rules key tasks =
    if eqb task 0
    then (tasks, false)
    else (let (st, reset) = apply_state user strategy rules key (lookup task tasks) in
        (insert task st tasks, reset))

pub compute_next_run : ℕ → Time → Tasks → Tasks × Time × Option SlotKey
compute_next_run task now tasks =
    if eqb task 0 then (tasks, zero_time, none) else elim (with_rules task tasks) [
      | none ↦ (tasks, zero_time, none)
      | some st ↦ (let r = next_run_state now st in (insert task r.state tasks, r.next, r.reset))
    ]
