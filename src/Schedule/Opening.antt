-- ===== src/Schedule/Opening.antt =====
-- When the next slot of any rule opens.
use tgvive.Schedule.{
  ParsedRule, is_active, contains, next_start, earlier, next_from, next_slot_start,
  pick_active_slot,
}
use tgvive.Schedule.Rules.{IsRule, next_start_earliest}
use tgvive.Schedule.Pick.{pick_active_slot-none}
use tgvive.Clock.{Time, zero_time}
use tgvive.Prelude.{
  List, Bool, Option, some, IsIn, All, ◌≡◌, not, ◌≤◌, true, ◌⊎◌, here, ◌∷◌, false, none, ◌||◌,
  arith, inl, subst, there, ◌<◌, eqb, Bool-cases, sym, inr, [], ltb, refl,
}
use tgvive.Prelude.Int.{leb_ℤ, pos}

-- The start of a rule counts.
abbrev counts : Time → ParsedRule → Bool
counts now r = not (leb_ℤ r.limit (pos 0) || eqb (next_start r now) zero_time)

earlier-some :
    (t : Time) (next : Option Time)
    → (b : Time) × (earlier t next ≡ some b) × (b ≤ t) × ((b ≡ t) ⊎ (next ≡ some b))
unfolding earlier
earlier-some t none = (t, refl, omega arith, inl refl)
earlier-some t (some next) = elim (Bool-cases (ltb t next)) [
  | inl q ↦ (t, rw q, omega arith, inl refl)
  | inr q ↦ (next, rw q, ground arith, inr refl)
]

next_from-le :
    (now : Time) (rs : List ParsedRule) (a t : Time) → next_from now rs (some a) ≡ some t → t ≤ a
unfolding next_from earlier
next_from-le now [] a t e = ground arith
next_from-le now (r ∷ rs) a t e =
    ground (arith, next_from-le now rs a t, next_from-le now rs (next_start r now) t)

next_from-All :
    (now : Time) (rs : List ParsedRule) (next : Option Time) (t : Time)
    → next_from now rs next ≡ some t
    → All (λ r. counts now r ≡ true → t ≤ next_start r now) rs
unfolding next_from
next_from-All now [] next t e = tt
next_from-All now (r ∷ rs) next t e = (
  λ c.
      let (b, q, l, _) = earlier-some (next_start r now) next in
      omega (arith, l, next_from-le now rs b t (rw (not-true _ c, q) at e)),
  next_from-All now rs _ t e,
)
  where
    not-true : (b : Bool) → not b ≡ true → b ≡ false
    not-true true h = cc
    not-true false h = refl

-- The start is that of a rule whose limit is positive.
abbrev IsStartOf : Time → List ParsedRule → Time → Type 0
IsStartOf now rules t =
    (r : ParsedRule) × IsIn r rules × (leb_ℤ r.limit (pos 0) ≡ false) × (t ≡ next_start r now)

next_from-IsStartOf :
    (now : Time) (rs : List ParsedRule) (next : Option Time) (t : Time)
    → next_from now rs next ≡ some t
    → (next ≡ some t) ⊎ IsStartOf now rs t
unfolding next_from
next_from-IsStartOf now [] next t e = inl e
next_from-IsStartOf now (r ∷ rs) next t e = elim (next_from-IsStartOf now rs _ t e) [
  | inl b ↦ elim (Bool-cases (leb_ℤ r.limit (pos 0) || eqb (next_start r now) zero_time)) [
    | inl a ↦ inl (rw a at b)
    | inr a ↦
        let (c, q, _, o) = earlier-some (next_start r now) next in
        elim o [
          | inl f ↦ inr (r, here refl, ground arith, ground (arith, q, f, b))
          | inr f ↦ inl (ground (arith, q, f))
        ]
  ]
  | inr (q, m, l, f) ↦ inr (q, there m, l, f)
]

All-IsIn {ℓ κ} : {A : Type ℓ} (P : A → Type κ) {a : A} {xs : List A} → All P xs → IsIn a xs → P a
All-IsIn P h (here e) = subst P (sym e) h.0
All-IsIn P h (there m) = All-IsIn P h.1 m

All-pointwise {ℓ κ} :
    {A : Type ℓ} (P : A → Type κ) (xs : List A) → ((a : A) → IsIn a xs → P a) → All P xs
All-pointwise P [] h = tt
All-pointwise P (x ∷ xs) h = (h x (here refl), All-pointwise P xs (λ a m. h a (there m)))

inactive_before :
    (now t u : Time) (r : ParsedRule)
    → IsRule r
    → is_active now r ≡ false
    → (counts now r ≡ true → t ≤ next_start r now)
    → now ≤ u
    → u < t
    → is_active u r ≡ false
unfolding is_active
inactive_before now t u r v a h l m = elim (Bool-cases (leb_ℤ r.limit (pos 0))) [
  | inl q ↦ rw q
  | inr q ↦
      let (ahead, _, shut) = next_start_earliest r now v (rw q at a) in
      rw (q, shut u l (omega (arith, h (rw q (ground arith))))) refl
]

shut_of :
    (now : Time) (r : ParsedRule)
    → leb_ℤ r.limit (pos 0) ≡ false
    → is_active now r ≡ false
    → contains r now ≡ false
unfolding is_active
shut_of now r l a = ground arith

active_of :
    (t : Time) (r : ParsedRule)
    → leb_ℤ r.limit (pos 0) ≡ false
    → contains r t ≡ true
    → is_active t r ≡ true
unfolding is_active
active_of t r l c = ground arith

-- While no slot is open, the next start is the first instant at which a slot of a positive limit is
-- open: it lies ahead, a rule is active then, and none is active at any instant before.
pub next_slot_start_earliest :
    (now t : Time) (rules : List ParsedRule)
    → All IsRule rules
    → pick_active_slot now rules ≡ none
    → next_slot_start now rules ≡ some t
    → (now < t)
      × ((r : ParsedRule) × IsIn r rules × (is_active t r ≡ true))
      × ((u : Time) → now ≤ u → u < t → All (λ r. is_active u r ≡ false) rules)
unfolding next_slot_start
next_slot_start_earliest now t rules v p e =
    let idle = pick_active_slot-none now rules p in
    elim (next_from-IsStartOf now rules none t e) [
      | inl b ↦ cc
      | inr (r, m, l, f) ↦
          let (ahead, open_then, _) =
            next_start_earliest r now (All-IsIn IsRule v m)
              (shut_of now r l (All-IsIn (λ q. is_active now q ≡ false) idle m)) in
          (
            rw f ahead,
            (r, m, rw f (active_of (next_start r now) r l open_then)),
            λ u lo hi.
                All-pointwise (λ q. is_active u q ≡ false) rules
                  λ q mq.
                    inactive_before now t u q (All-IsIn IsRule v mq)
                      (All-IsIn (λ x. is_active now x ≡ false) idle mq)
                      (All-IsIn (λ x. counts now x ≡ true → t ≤ next_start x now)
                        (next_from-All now rules none t e) mq)
                      lo hi,
          )
    ]
