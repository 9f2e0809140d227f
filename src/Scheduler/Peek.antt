-- ===== src/Scheduler/Peek.antt =====
-- What PeekPull announces and what ReservePull grants, on the state of one task.
use tgvive.Scheduler.{
  ScheduleState, Peeked, Reserved, peek_state, peek_slot, peek_idle, peek_tokens, take_tokens,
  reserve_slot, reserve_idle, reserve_state, remaining, slot_changed, settle, held_until,
  enter_slot,
}
use tgvive.Prelude.Int.{ℤ, leb_ℤ, pos, ltb_ℤ}
use tgvive.Clock.{Time}
use tgvive.Prelude.{
  if◌then◌else◌, ◌≡◌, Option, Option-cases, ◌&&◌, Bool-cases, inl, inr, true, refl, arith, none,
}
use tgvive.Schedule.{Slot, next_slot_start, pick_active_slot}
use tgvive.Scheduler.Keys.{SlotKey}
use tgvive.Prelude.Int64.{◌+i◌}
use tgvive.Scheduler.Within.{
  IsWithin, rescheduled-IsWithin, IsLimit, picked-IsLimit, enter_slot-IsWithin,
}

-- The grant that a peek announces: the need, cut to what is left if there is a bound.
abbrev pub announced : ℤ → Peeked → ℤ
announced need p =
    if p.allowed
    then (if leb_ℤ (pos 0) p.left && ltb_ℤ p.left need then p.left else need)
    else pos 0

-- The state after the reservation that a peek announces: the grant is added to the reservations if
-- there is a bound.
abbrev pub after_grant : ℤ → Peeked → ScheduleState
after_grant need p =
    if p.allowed && leb_ℤ (pos 0) p.left
    then record p.state { reserved = p.state.reserved +i announced need p }
    else p.state

abbrev pub Predicts : ℤ → Peeked → Reserved → Type 0
Predicts need p r =
    (r.granted ≡ announced need p)
    × (r.next ≡ p.next)
    × (r.reset ≡ p.reset)
    × (r.state ≡ after_grant need p)

tokens-Predicts :
    (need : ℤ) (st : ScheduleState) (reset : Option SlotKey)
    → Predicts need (peek_tokens (st, reset)) (take_tokens need (st, reset))
unfolding peek_tokens take_tokens
tokens-Predicts need st reset = elim (Bool-cases (leb_ℤ (remaining st) (pos 0))) [
  | inl q ↦ rw q (refl, refl, refl, refl)
  | inr q ↦
      let p : leb_ℤ (pos 0) (remaining st) ≡ true = ground arith in
      rw (q, p) (refl, refl, refl, refl)
]

slot-Predicts :
    (now : Time) (need : ℤ) (st : ScheduleState) (slot : Slot)
    → Predicts need (peek_slot now st slot) (reserve_slot now need st slot)
unfolding peek_slot reserve_slot
slot-Predicts now need st slot =
    elim (Bool-cases (slot_changed slot st && ltb_ℤ (pos 0) st.reserved)) [
      | inl q ↦ rw q (refl, refl, refl, refl)
      | inr q ↦ rw q (tokens-Predicts need (settle now slot st).0 (settle now slot st).1)
    ]

idle-Predicts :
    (now : Time) (need : ℤ) (st : ScheduleState)
    → Predicts need (peek_idle now st) (reserve_idle now need st)
unfolding peek_idle reserve_idle
idle-Predicts now need st = elim (Option-cases (next_slot_start now st.rules)) [
  | inl q ↦ rw (q, peek_idle, reserve_idle) (refl, refl, refl, refl)
  | inr (t, q) ↦ rw (q, peek_idle, reserve_idle) (refl, refl, refl, refl)
]

-- Both on the state of a task, from where ReservePull looks for the slot on.
pub peek-Predicts :
    (now : Time) (need : ℤ) (st : ScheduleState)
    → Predicts need (peek_state now st) (reserve_state now need st)
unfolding peek_state reserve_state
peek-Predicts now need st = elim (Option-cases (pick_active_slot now st.rules)) [
  | inl q ↦ rw (q, peek_state, reserve_state) (idle-Predicts now need st)
  | inr (slot, q) ↦ rw (q, peek_state, reserve_state) (slot-Predicts now need st slot)
]

peek_tokens-IsWithin :
    (st : ScheduleState) (reset : Option SlotKey)
    → IsWithin st
    → IsWithin (peek_tokens (st, reset)).state
unfolding peek_tokens
peek_tokens-IsWithin st reset v = elim (Bool-cases (leb_ℤ (remaining st) (pos 0))) [
  | inl q ↦ rw q (rescheduled-IsWithin st st.slot_end v)
  | inr q ↦ rw q v
]

peek_slot-IsWithin :
    (now : Time) (st : ScheduleState) (slot : Slot)
    → IsWithin st
    → IsLimit slot.limit
    → IsWithin (peek_slot now st slot).state
unfolding peek_slot
peek_slot-IsWithin now st slot v l = elim (Bool-cases (slot_changed slot st)) [
  | inl c ↦ elim (Bool-cases (ltb_ℤ (pos 0) st.reserved)) [
    | inl q ↦ rw (c, q) (rescheduled-IsWithin st (held_until slot st) v)
    | inr q ↦
        rw (c, q)
          (peek_tokens-IsWithin (enter_slot now slot st).0 (enter_slot now slot st).1
            (enter_slot-IsWithin now slot st v l q))
  ]
  | inr c ↦ rw c (peek_tokens-IsWithin st none v)
]

peek_idle-IsWithin :
    (now : Time) (st : ScheduleState) → IsWithin st → IsWithin (peek_idle now st).state
unfolding peek_idle
peek_idle-IsWithin now st v = elim (Option-cases (next_slot_start now st.rules)) [
  | inl q ↦ rw (q, peek_idle) v
  | inr (t, q) ↦ rw (q, peek_idle) (rescheduled-IsWithin st t v)
]

pub peek_state-IsWithin :
    (now : Time) (st : ScheduleState) → IsWithin st → IsWithin (peek_state now st).state
unfolding peek_state
peek_state-IsWithin now st v = elim (Option-cases (pick_active_slot now st.rules)) [
  | inl q ↦ rw (q, peek_state) (peek_idle-IsWithin now st v)
  | inr (slot, q) ↦
      rw (q, peek_state) (peek_slot-IsWithin now st slot v (picked-IsLimit now st slot v q))
]
