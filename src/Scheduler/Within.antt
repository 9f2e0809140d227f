-- ===== src/Scheduler/Within.antt =====
-- The reservations of a task never pass what its slot has left.
use tgvive.Schedule.Pick.{pick_active_slot_least}
use tgvive.Scheduler.{
  ScheduleState, remaining, take_tokens, enter_slot, reserve_slot, reserve_idle, reserve_state,
  slot_changed, held_until,
}
use tgvive.Prelude.Int.{ℤ, pos_part, neg_part, pos, ◌<ℤ◌, int_laws, ◌-ℤ◌, leb_ℤ, ltb_ℤ, ◌≤ℤ◌, ◌+ℤ◌}
use tgvive.Prelude.{
  All, ◌+◌, ◌≡◌, ◌<◌, ◌≤◌, ◌^◌, false, Option, if◌then◌else◌, arith, Bool-cases, inl, inr, refl,
  List, ℕ, Option-cases, get_elem?, some, ◌∷◌, ◌-◌, none, subst, suc, [], zero,
}
use tgvive.Prelude.Int64.{◌-i◌, -i_exact, ◌+i◌, +i_exact}
use tgvive.Scheduler.Keys.{SlotKey}
use tgvive.Clock.{Time}
use tgvive.Schedule.{Slot, pick_active_slot, next_slot_start}

abbrev pub IsLimit : ℤ → Type 0
IsLimit n = (neg_part n ≡ 0) × (pos_part n < 2 ^ 63)

-- The counters are counts that 64 bits hold, and what is reserved fits in the slot with what is used.
pub record IsWithin (st : ScheduleState) : Type 0 where
  pub rules_fit : All (λ r. IsLimit r.limit) st.rules
  pub limit_fits : IsLimit st.limit
  pub used_fits : IsLimit st.used
  pub reserved_fits : IsLimit st.reserved
  pub quota : pos 0 <ℤ st.reserved → pos_part st.used + pos_part st.reserved ≤ pos_part st.limit

-- The time of the next run plays no part.
pub rescheduled-IsWithin :
    (st : ScheduleState) (t : Time) → IsWithin st → IsWithin (record st { next_run = t })
rescheduled-IsWithin st t v = record {
  rules_fit = v.rules_fit;
  limit_fits = v.limit_fits;
  used_fits = v.used_fits;
  reserved_fits = v.reserved_fits;
  quota = v.quota;
}

sub_sub_exact :
    (l u r : ℤ)
    → IsLimit l
    → IsLimit u
    → IsLimit r
    → (pos 0 <ℤ r → pos_part u + pos_part r ≤ pos_part l)
    → l -i u -i r ≡ l -ℤ u -ℤ r
sub_sub_exact l u r hl hu hr q =
    let e : l -i u ≡ l -ℤ u = -i_exact l u (omega int_laws, omega int_laws) in
    rw e (-i_exact (l -ℤ u) r (grind int_laws, grind int_laws))

-- Under the invariant the subtractions do not wrap.
pub remaining_parts :
    (st : ScheduleState)
    → IsWithin st
    → pos_part (remaining st) + pos_part st.used + pos_part st.reserved
      ≡ pos_part st.limit + neg_part (remaining st)
unfolding remaining
remaining_parts st v =
    rw (sub_sub_exact st.limit st.used st.reserved v.limit_fits v.used_fits v.reserved_fits v.quota)
      (omega (int_laws, v.limit_fits.0, v.used_fits.0, v.reserved_fits.0))

grant_facts :
    (need left : ℤ)
    → pos 0 <ℤ need
    → leb_ℤ left (pos 0) ≡ false
    → let g = if ltb_ℤ left need then left else need in (g ≤ℤ need) × (g ≤ℤ left) × (neg_part g ≡ 0)
grant_facts need left n q = ground arith

-- The sum of two counts that 64 bits hold.
pub add_counts :
    (a b : ℤ)
    → IsLimit a
    → neg_part b ≡ 0
    → pos_part a + pos_part b < 2 ^ 63
    → (neg_part (a +i b) ≡ 0) × (pos_part (a +i b) ≡ pos_part a + pos_part b)
add_counts a b ha nb h =
    let e : a +i b ≡ a +ℤ b =
      +i_exact a b (omega (int_laws, ha.0, nb), omega (int_laws, ha.0, nb)) in
    rw e (omega (int_laws, ha.0, nb), omega (int_laws, ha.0, nb))

granted-IsWithin :
    (st : ScheduleState) (g : ℤ)
    → IsWithin st
    → leb_ℤ (remaining st) (pos 0) ≡ false
    → neg_part g ≡ 0
    → g ≤ℤ remaining st
    → IsWithin (record st { reserved = st.reserved +i g })
granted-IsWithin st g v q z m =
    let total : pos_part st.used + (pos_part st.reserved + pos_part g) ≤ pos_part st.limit =
      ground (arith, remaining_parts st v) in
    let (n, s) =
      add_counts st.reserved g v.reserved_fits z (omega (arith, total, v.limit_fits.1)) in
    record {
      rules_fit = v.rules_fit;
      limit_fits = v.limit_fits;
      used_fits = v.used_fits;
      reserved_fits = (n, omega (arith, s, total, v.limit_fits.1));
      quota = λ _. omega (arith, s, total);
    }

-- Tokens are taken for a positive need: never more than asked for, and the quota still holds.
take_tokens-IsWithin :
    (need : ℤ) (st : ScheduleState) (reset : Option SlotKey)
    → IsWithin st
    → pos 0 <ℤ need
    → let r = take_tokens need (st, reset) in
      IsWithin r.state × (neg_part r.granted ≡ 0) × (r.granted ≤ℤ need)
unfolding take_tokens
take_tokens-IsWithin need st reset v n = elim (Bool-cases (leb_ℤ (remaining st) (pos 0))) [
  | inl q ↦ rw q (rescheduled-IsWithin st st.slot_end v, refl, omega arith)
  | inr q ↦
      let (l, m, z) = grant_facts need (remaining st) n q in
      rw q (granted-IsWithin st _ v q z m, z, l)
]

All-get_elem? {ℓ κ} :
    {A : Type ℓ} (P : A → Type κ) (xs : List A) (i : ℕ) (a : A)
    → All P xs
    → get_elem? xs i ≡ some a
    → P a
All-get_elem? P [] i a h e = cc
All-get_elem? P (x ∷ xs) zero a h e = let q : x ≡ a = cc in subst P q h.0
All-get_elem? P (x ∷ xs) (suc i) a h e = All-get_elem? P xs i a h.1 e

-- A slot that is picked has a limit that fits.
pub picked-IsLimit :
    (now : Time) (st : ScheduleState) (s : Slot)
    → IsWithin st
    → pick_active_slot now st.rules ≡ some s
    → IsLimit s.limit
picked-IsLimit now st s v e =
    let ((r, at, _, _, same), _) = pick_active_slot_least now st.rules s e in
    rw same (All-get_elem? (λ r. IsLimit r.limit) st.rules (s.rule_idx - 0) r v.rules_fit at)

-- A task enters a slot only with no reservation.
pub enter_slot-IsWithin :
    (now : Time) (slot : Slot) (st : ScheduleState)
    → IsWithin st
    → IsLimit slot.limit
    → ltb_ℤ (pos 0) st.reserved ≡ false
    → IsWithin (enter_slot now slot st).0
unfolding enter_slot
enter_slot-IsWithin now slot st v l q = ground arith

reserve_slot-IsWithin :
    (now : Time) (need : ℤ) (st : ScheduleState) (slot : Slot)
    → IsWithin st
    → IsLimit slot.limit
    → pos 0 <ℤ need
    → let r = reserve_slot now need st slot in
      IsWithin r.state × (neg_part r.granted ≡ 0) × (r.granted ≤ℤ need)
unfolding reserve_slot
reserve_slot-IsWithin now need st slot v l n = elim (Bool-cases (slot_changed slot st)) [
  | inl c ↦ elim (Bool-cases (ltb_ℤ (pos 0) st.reserved)) [
    | inl q ↦ rw (c, q) (rescheduled-IsWithin st (held_until slot st) v, refl, omega arith)
    | inr q ↦
        rw (c, q)
          (take_tokens-IsWithin need (enter_slot now slot st).0 (enter_slot now slot st).1
            (enter_slot-IsWithin now slot st v l q) n)
  ]
  | inr c ↦ rw c (take_tokens-IsWithin need st none v n)
]

reserve_idle-IsWithin :
    (now : Time) (need : ℤ) (st : ScheduleState)
    → IsWithin st
    → pos 0 <ℤ need
    → let r = reserve_idle now need st in
      IsWithin r.state × (neg_part r.granted ≡ 0) × (r.granted ≤ℤ need)
unfolding reserve_idle
reserve_idle-IsWithin now need st v n = elim (Option-cases (next_slot_start now st.rules)) [
  | inl q ↦ rw (q, reserve_idle) (v, ground arith, omega arith)
  | inr (t, q) ↦ rw (q, reserve_idle) (rescheduled-IsWithin st t v, refl, omega arith)
]

-- ReservePull, at any time and for any positive need, grants no negative number of tokens and none
-- beyond the need, and afterwards the task's counters fit: used and reserved tokens together are
-- within the limit of the slot whenever any token is reserved.
pub reserve_state-IsWithin :
    (now : Time) (need : ℤ) (st : ScheduleState)
    → IsWithin st
    → pos 0 <ℤ need
    → let r = reserve_state now need st in
      IsWithin r.state × (neg_part r.granted ≡ 0) × (r.granted ≤ℤ need)
unfolding reserve_state
reserve_state-IsWithin now need st v n = elim (Option-cases (pick_active_slot now st.rules)) [
  | inl q ↦ rw (q, reserve_state) (reserve_idle-IsWithin now need st v n)
  | inr (slot, q) ↦
      rw (q, reserve_state)
        (reserve_slot-IsWithin now need st slot v (picked-IsLimit now st slot v q) n)
]
