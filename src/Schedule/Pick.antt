-- ===== src/Schedule/Pick.antt =====
-- Which slot is active, and which opens first.
use tgvive.Schedule.{
  ParsedRule, Slot, is_active, better_slot, pick_from, pick_active_slot, end_time,
}
use tgvive.Clock.{Time}
use tgvive.Prelude.{
  Option, ℕ, ◌≡◌, List, some, get_elem?, ◌≤◌, All, none, ◌⊎◌, ◌-◌, arith, true, false, inl, ◌∷◌,
  suc, inr, [], Bool-cases, refl, ltb, subst,
}

-- The slot is that of the rule at its index, which is active.
abbrev pub IsSlotOf : Time → ℕ → List ParsedRule → Slot → Type 0
IsSlotOf now idx rules s =
    (r : ParsedRule) × (get_elem? rules (s.rule_idx - idx) ≡ some r)
    × (is_active now r ≡ true)
    × (s.slot_end ≡ end_time r now)
    × (s.limit ≡ r.limit)

better_slot-some :
    (s : Slot) (best : Option Slot)
    → (b : Slot) × (better_slot s best ≡ some b)
      × (b.slot_end ≤ s.slot_end)
      × ((b ≡ s) ⊎ (best ≡ some b))
unfolding better_slot
better_slot-some s none = (s, refl, omega arith, inl refl)
better_slot-some s (some best) = elim (Bool-cases (ltb s.slot_end best.slot_end)) [
  | inl q ↦ (s, rw q, omega arith, inl refl)
  | inr q ↦ (best, rw q, ground arith, inr refl)
]

pick_from-le :
    (now : Time) (idx : ℕ) (rs : List ParsedRule) (b s : Slot)
    → pick_from now idx rs (some b) ≡ some s
    → s.slot_end ≤ b.slot_end
unfolding pick_from better_slot
pick_from-le now idx [] b s e = ground arith
pick_from-le now idx (r ∷ rs) b s e = ground (
  arith,
  pick_from-le now (suc idx) rs b s,
  pick_from-le now (suc idx) rs
      (record { rule_idx = idx; slot_end = end_time r now; limit = r.limit }) s,
)

pick_from-All :
    (now : Time) (idx : ℕ) (rs : List ParsedRule) (best : Option Slot) (s : Slot)
    → pick_from now idx rs best ≡ some s
    → All (λ r. is_active now r ≡ true → s.slot_end ≤ end_time r now) rs
unfolding pick_from
pick_from-All now idx [] best s e = tt
pick_from-All now idx (r ∷ rs) best s e = (
  λ a.
      let (b, q, l, _) =
        better_slot-some (record { rule_idx = idx; slot_end = end_time r now; limit = r.limit })
          best in
      omega (arith, l, pick_from-le now (suc idx) rs b s (rw (a, q) at e)),
  pick_from-All now (suc idx) rs _ s e,
)

pick_from-none :
    (now : Time) (idx : ℕ) (rs : List ParsedRule) (best : Option Slot)
    → pick_from now idx rs best ≡ none
    → (best ≡ none) × All (λ r. is_active now r ≡ false) rs
unfolding pick_from better_slot
pick_from-none now idx [] best e = (e, tt)
pick_from-none now idx (r ∷ rs) best e =
    let (b, a) = pick_from-none now (suc idx) rs _ e in (ground arith, (ground arith, a))

here_slot :
    (now : Time) (idx : ℕ) (r : ParsedRule) (rs : List ParsedRule)
    → is_active now r ≡ true
    → IsSlotOf now idx
        (r ∷ rs)
        (record { rule_idx = idx; slot_end = end_time r now; limit = r.limit })
here_slot now idx r rs a = (r, rw (let z : idx - idx ≡ 0 = omega arith in z), a, refl, refl)

later_slot :
    (now : Time) (idx : ℕ) (r : ParsedRule) (rs : List ParsedRule) (s : Slot)
    → suc idx ≤ s.rule_idx
    → IsSlotOf now (suc idx) rs s
    → IsSlotOf now idx (r ∷ rs) s
later_slot now idx r rs s l (q, at, a, b, c) =
    let z : s.rule_idx - idx ≡ suc (s.rule_idx - suc idx) = omega arith in (q, rw z at, a, b, c)

pick_from-IsSlotOf :
    (now : Time) (idx : ℕ) (rs : List ParsedRule) (best : Option Slot) (s : Slot)
    → pick_from now idx rs best ≡ some s
    → (best ≡ some s) ⊎ ((idx ≤ s.rule_idx) × IsSlotOf now idx rs s)
unfolding pick_from
pick_from-IsSlotOf now idx [] best s e = inl e
pick_from-IsSlotOf now idx (r ∷ rs) best s e = elim (pick_from-IsSlotOf now (suc idx) rs _ s e) [
  | inl b ↦ elim (Bool-cases (is_active now r)) [
    | inl a ↦
        let new : Slot = record { rule_idx = idx; slot_end = end_time r now; limit = r.limit } in
        let (c, q, _, o) = better_slot-some new best in
        elim o [
          | inl f ↦ inr (
              subst (λ x. (idx ≤ x.rule_idx) × IsSlotOf now idx (r ∷ rs) x) (ground (arith, q, f))
                (omega arith, here_slot now idx r rs a))
          | inr f ↦ inl (ground (arith, q, f))
        ]
    | inr a ↦ inl (rw a at b)
  ]
  | inr (l, o) ↦ inr (omega arith, later_slot now idx r rs s l o)
]

-- The slot that is picked is that of an active rule, and no active rule's slot ends sooner.
pub pick_active_slot_least :
    (now : Time) (rules : List ParsedRule) (s : Slot)
    → pick_active_slot now rules ≡ some s
    → IsSlotOf now 0 rules s × All (λ r. is_active now r ≡ true → s.slot_end ≤ end_time r now) rules
unfolding pick_active_slot
pick_active_slot_least now rules s e = elim (pick_from-IsSlotOf now 0 rules none s e) [
  | inl b ↦ cc
  | inr (l, o) ↦ (o, pick_from-All now 0 rules none s e)
]

-- If no slot is picked, no rule is active.
pub pick_active_slot-none :
    (now : Time) (rules : List ParsedRule)
    → pick_active_slot now rules ≡ none
    → All (λ r. is_active now r ≡ false) rules
unfolding pick_active_slot
pick_active_slot-none now rules e = (pick_from-none now 0 rules none e).1
