-- ===== src/Scheduler/Engine/Pulls.antt =====
-- internal/engine/scheduler.go: PeekPull and ReservePull at the same instant, on the map of tasks.
use tgvive.Scheduler.Engine.{Tasks, peek_pull, reserve_pull, with_rules}
use tgvive.Prelude.{
  ℕ, Bool, Option, if◌then◌else◌, ◌&&◌, ◌≡◌, some, Bool-cases, Option-cases, inl, inr, eqb, arith,
  refl, ap, false, none, nat_eq, sym, ◌∙◌,
}
use tgvive.Prelude.Int.{ℤ, pos, leb_ℤ, ltb_ℤ, ◌<ℤ◌}
use tgvive.Prelude.Int64.{◌+i◌}
use tgvive.Prelude.Map.{lookup, insert, lookup-insert, same_refl}
use tgvive.Clock.{Time}
use tgvive.Scheduler.{ScheduleState, peek_state, reserve_state}
use tgvive.Scheduler.Keys.{SlotKey}
use tgvive.Scheduler.Peek.{peek-Predicts}

-- The need, cut to what is left where that is bounded (not negative).
abbrev pub cut_need : ℤ → Bool → ℤ → ℤ
cut_need need allowed left =
    if allowed then (if leb_ℤ (pos 0) left && ltb_ℤ left need then left else need) else pos 0

-- What the answers of PeekPull and of ReservePull have to do with each other, and the states of the
-- task that they leave.
abbrev pub IsForetold :
    ℤ → ℕ → Tasks × Bool × ℤ × Time × Option SlotKey → Tasks × ℤ × Time × Option SlotKey → Type 0
IsForetold need task (peeked, allowed, left, next, reset) (tasks, granted, next', reset') =
    (granted ≡ cut_need need allowed left)
    × (next' ≡ next)
    × (reset' ≡ reset)
    × ((p : ScheduleState)
        → lookup task peeked ≡ some p
        → lookup task tasks
          ≡ some (
              if allowed && leb_ℤ (pos 0) left
              then record p { reserved = p.reserved +i granted }
              else p))

lookup-own :
    (task : ℕ) (st : ScheduleState) (tasks : Tasks) → lookup task (insert task st tasks) ≡ some st
lookup-own task st tasks = ground (arith, lookup-insert task task st tasks, same_refl task)

-- The state that a reservation leaves, where the granted tokens are added to one.
abbrev with_grant : Bool → ℤ → ScheduleState → ScheduleState
with_grant bounded granted st =
    if bounded then record st { reserved = st.reserved +i granted } else st

state_or : ScheduleState → Option ScheduleState → ScheduleState
state_or st none = st
state_or st (some x) = x

granted_of :
    (now : Time) (task : ℕ) (need : ℤ) (tasks : Tasks) (st : ScheduleState)
    → let p = peek_state now st in
      let r = reserve_state now need st in
      IsForetold need task
        (insert task p.state tasks, p.allowed, p.left, p.next, p.reset)
        (insert task r.state tasks, r.granted, r.next, r.reset)
unfolding state_or
granted_of now task need tasks st =
    let p = peek_state now st in
    let r = reserve_state now need st in
    let (g, x, y, s) = peek-Predicts now need st in
    let bounded = p.allowed && leb_ℤ (pos 0) p.left in
    (
      g,
      x,
      y,
      λ k e.
          (let same : p.state ≡ k =
              ap (state_or p.state) (sym (lookup-own task p.state tasks) ∙ e) in
            lookup-own task r.state tasks
            ∙ ap some (
                s
                ∙ ap (λ n. with_grant bounded n p.state) (sym g)
                ∙ ap (with_grant bounded r.granted) same)),
    )

-- For a need above 0, of any task at any instant, ReservePull grants what PeekPull announces: the
-- need, cut to what is left where the slot bounds it, or nothing where PeekPull does not allow it. It
-- has the same next time and the same key to persist, and it leaves the task in the state in which the
-- peek leaves it, with what was granted added to the reservations where the slot bounds it.
pub peek_pull-IsForetold :
    (now : Time) (task : ℕ) (need : ℤ) (tasks : Tasks)
    → pos 0 <ℤ need
    → IsForetold need task (peek_pull now task tasks) (reserve_pull now task need tasks)
unfolding peek_pull reserve_pull
peek_pull-IsForetold now task need tasks n =
    let q : leb_ℤ need (pos 0) ≡ false = ground (arith, n) in
    elim (Bool-cases (eqb task 0)) [
      | inl z ↦ rw (q, z) (refl, refl, refl, λ p e. e)
      | inr z ↦ elim (Option-cases (with_rules task tasks)) [
        | inl w ↦ rw (q, z, w, peek_pull, reserve_pull) (refl, refl, refl, λ p e. e)
        | inr (st, w) ↦ rw (q, z, w, peek_pull, reserve_pull) (granted_of now task need tasks st)
      ]
    ]
