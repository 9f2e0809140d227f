-- ===== src/Scheduler/Engine/Counters.antt =====
-- Each method on the state of one task keeps its counters within the slot.
use tgvive.Scheduler.{ScheduleState, new_state, slot_changed}
use tgvive.Scheduler.Within.{
  IsWithin, IsLimit, add_counts, rescheduled-IsWithin, enter_slot-IsWithin, picked-IsLimit,
}
use tgvive.Scheduler.Engine.{
  give_back, commit_state, release_state, apply_state, next_run_slot, next_run_idle, next_run_state,
}
use tgvive.Prelude.Int.{
  ℤ, pos, ◌<ℤ◌, neg_part, ltb_ℤ, pos_part, leb_ℤ, ◌-ℤ◌, int_laws, -ℤ_parts, one_sided, eqb_ℤ,
  eqb_ℤ_iff,
}
use tgvive.Prelude.Int64.{InInt64, ◌-i◌, -i_exact, ◌+i◌, +i-InInt64}
use tgvive.Prelude.{
  if◌then◌else◌, arith, Bool-cases, ◌≡◌, eqb, length, ◌-◌, ◌||◌, inl, inr, ◌<◌, ◌+◌, Option, ℕ, ◌≤◌,
  some, List, Option-cases, none, All, refl,
}
use tgvive.Scheduler.Keys.{is_unset, RulesKey}
use tgvive.Clock.{Time, zero_time}
use tgvive.Schedule.{ParsedRule, pick_active_slot, Slot}

-- What is given back leaves a count, and no more than there was.
give_back_facts :
    (delta reserved : ℤ)
    → pos 0 <ℤ delta
    → InInt64 delta
    → IsLimit reserved
    → (neg_part (give_back delta reserved) ≡ 0)
      × (pos_part (give_back delta reserved) ≡ pos_part reserved - pos_part delta)
unfolding give_back
give_back_facts delta reserved d f h =
    let e : reserved -i delta ≡ reserved -ℤ delta =
      -i_exact reserved delta (omega (int_laws, h.0, h.1, f.0), omega (int_laws, h.0, h.1, f.0)) in
    rw e (ground (arith, -ℤ_parts reserved delta, one_sided (reserved -ℤ delta), one_sided delta))

pub release_state-IsWithin :
    (delta : ℤ) (st : ScheduleState)
    → pos 0 <ℤ delta
    → InInt64 delta
    → IsWithin st
    → IsWithin (release_state delta st)
unfolding release_state
release_state-IsWithin delta st d f v =
    let (z, m) = give_back_facts delta st.reserved d f v.reserved_fits in
    record {
      rules_fit = v.rules_fit;
      limit_fits = v.limit_fits;
      used_fits = v.used_fits;
      reserved_fits = (z, omega (arith, m, v.reserved_fits.1));
      quota = λ p. ground (arith, z, m, v.quota);
    }

-- A sum of counts, cut at 0 where it has wrapped.
clamped_fits : (a : ℤ) → InInt64 a → IsLimit (if ltb_ℤ a (pos 0) then pos 0 else a)
clamped_fits a h = ground arith

commit_quota :
    (delta : ℤ) (st : ScheduleState)
    → pos 0 <ℤ delta
    → IsWithin st
    → pos_part delta < pos_part st.reserved
    → let sum = st.used +i delta in
      pos_part (if ltb_ℤ sum (pos 0) then pos 0 else sum) + (pos_part st.reserved - pos_part delta)
      ≤ pos_part st.limit
commit_quota delta st d v big =
    let q : pos_part st.used + pos_part st.reserved ≤ pos_part st.limit = ground arith in
    let nd : neg_part delta ≡ 0 = ground (arith, one_sided delta) in
    let (n, s) = add_counts st.used delta v.used_fits nd (omega (arith, q, big, v.limit_fits.1)) in
    ground (arith, n, s, q, big)

pub commit_state-IsWithin :
    (delta : ℤ) (st : ScheduleState)
    → pos 0 <ℤ delta
    → InInt64 delta
    → IsWithin st
    → IsWithin (commit_state delta st).0
unfolding commit_state
commit_state-IsWithin delta st d f v =
    let (z, m) = give_back_facts delta st.reserved d f v.reserved_fits in
    elim (Bool-cases
      (eqb (length st.rules) 0 || leb_ℤ st.limit (pos 0) || is_unset st.current_slot_key)) [
        | inl q ↦ rw q v
        | inr q ↦ rw q (record {
          rules_fit = v.rules_fit;
          limit_fits = v.limit_fits;
          used_fits = clamped_fits (st.used +i delta) (+i-InInt64 st.used delta);
          reserved_fits = (z, omega (arith, m, v.reserved_fits.1));
          quota = λ p. rw m (commit_quota delta st d v (omega (arith, p, z, m)));
        })
      ]

pub new_state-IsWithin : IsWithin new_state
new_state-IsWithin = record {
  rules_fit = tt;
  limit_fits = omega arith;
  used_fits = omega arith;
  reserved_fits = omega arith;
  quota = λ p. omega arith;
}

pub apply_state-IsWithin :
    (user strategy : ℕ) (rules : List ParsedRule) (key : RulesKey) (old : Option ScheduleState)
    → All (λ r. IsLimit r.limit) rules
    → ((st : ScheduleState) → old ≡ some st → IsWithin st)
    → IsWithin (apply_state user strategy rules key old).0
unfolding apply_state
apply_state-IsWithin user strategy rules key none h v = record {
  rules_fit = h;
  limit_fits = ground arith;
  used_fits = ground arith;
  reserved_fits = ground arith;
  quota = ground arith;
}
apply_state-IsWithin user strategy rules key (some st) h v =
    let w = v st refl in
    record {
      rules_fit = h;
      limit_fits = ground (arith, w.limit_fits);
      used_fits = ground (arith, w.used_fits);
      reserved_fits = ground (arith, w.reserved_fits);
      quota = ground (arith, w.quota);
    }

next_run_slot-IsWithin :
    (now : Time) (st : ScheduleState) (slot : Slot)
    → IsWithin st
    → IsLimit slot.limit
    → IsWithin (next_run_slot now st slot).state
unfolding next_run_slot
next_run_slot-IsWithin now st slot v l = elim (Bool-cases (slot_changed slot st)) [
  | inl c ↦ elim (Bool-cases (eqb_ℤ st.reserved (pos 0))) [
    | inl q ↦
        rw (c, q)
          (enter_slot-IsWithin now slot st v l (ground (arith, eqb_ℤ_iff st.reserved (pos 0))))
    | inr q ↦ rw (c, q) v
  ]
  | inr c ↦ elim (Bool-cases (leb_ℤ st.limit (pos 0))) [
    | inl q ↦ rw (c, q) (rescheduled-IsWithin st zero_time v)
    | inr q ↦ elim (Bool-cases (leb_ℤ st.limit st.used)) [
      | inl r ↦ rw (c, q, r) (rescheduled-IsWithin st st.slot_end v)
      | inr r ↦ rw (c, q, r) (rescheduled-IsWithin st zero_time v)
    ]
  ]
]

pub next_run_state-IsWithin :
    (now : Time) (st : ScheduleState) → IsWithin st → IsWithin (next_run_state now st).state
unfolding next_run_state
next_run_state-IsWithin now st v = elim (Option-cases (pick_active_slot now st.rules)) [
  | inl q ↦ rw (q, next_run_state) (unfold next_run_idle in rescheduled-IsWithin st _ v)
  | inr (slot, q) ↦
      rw (q, next_run_state) (next_run_slot-IsWithin now st slot v (picked-IsLimit now st slot v q))
]
