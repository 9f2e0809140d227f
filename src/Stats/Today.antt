-- ===== src/Stats/Today.antt =====
-- The counters of the day beside those of the whole run.
use tgvive.Prelude.{
  ℕ, List, ◌∷◌, ◌+◌, if◌then◌else◌, [], eqb, ◌≡◌, false, true, arith, ◌%◌, ◌^◌, All, Bool-cases,
  inl, inr, refl, ◌∙◌, ap, sym,
}
use native.Mathlib.Nat
use tgvive.Text.{Text, text_same, text_same-eq, text_same_refl}
use tgvive.Stats.{
  AppStats, add_success, add_fail, add_filtered, ensure_biz_day, count_success, count_fail,
  count_filtered, new_app_stats,
}

pub data Outcome : Type 0 where
  succeeded failed filtered : Outcome

-- A call of AddSuccess, AddFail or AddFiltered, and the day on which it is made.
pub record Counted : Type 0 where
  pub outcome : Outcome
  pub day : Text
  pub n : ℕ

unfoldable pub count_one : Counted → AppStats → AppStats
count_one c s = elim c.outcome [
  | succeeded ↦ add_success c.day c.n s
  | failed ↦ add_fail c.day c.n s
  | filtered ↦ add_filtered c.day c.n s
]

-- The counters after the calls, of which the latest stands first.
unfoldable pub count_calls : List Counted → AppStats → AppStats
count_calls [] s = s
count_calls (c ∷ earlier) s = count_one c (count_calls earlier s)

unfoldable pub amount : Outcome → Counted → ℕ
amount succeeded c = elim c.outcome [ succeeded ↦ c.n | failed ↦ 0 | filtered ↦ 0 ]
amount failed c = elim c.outcome [ succeeded ↦ 0 | failed ↦ c.n | filtered ↦ 0 ]
amount filtered c = elim c.outcome [ succeeded ↦ 0 | failed ↦ 0 | filtered ↦ c.n ]

unfoldable pub total : Outcome → List Counted → ℕ
total k [] = 0
total k (c ∷ earlier) = total k earlier + amount k c

-- The latest calls, back to the first one that was made on another day. A call for nothing does not
-- count.
unfoldable pub on_day : Text → List Counted → List Counted
on_day day [] = []
on_day day (c ∷ earlier) =
    if eqb c.n 0
    then on_day day earlier
    else if text_same c.day day
    then c ∷ on_day day earlier
    else []

unfoldable pub total_of : Outcome → AppStats → ℕ
total_of succeeded s = s.success
total_of failed s = s.fail
total_of filtered s = s.filtered

unfoldable pub today_of : Outcome → AppStats → ℕ
today_of succeeded s = s.today_success
today_of failed s = s.today_fail
today_of filtered s = s.today_filtered

abbrev HasDay : Counted → Type 0
HasDay c = text_same c.day [] ≡ false

abbrev modulus : ℕ
modulus = 2 ^ 64

-- The two additions of a call of any kind.
tally : Counted → AppStats → AppStats
tally c s = elim c.outcome [
  | succeeded ↦ count_success c.n s
  | failed ↦ count_fail c.n s
  | filtered ↦ count_filtered c.n s
]

counted_nothing : (c : Counted) (s : AppStats) → eqb c.n 0 ≡ true → count_one c s ≡ s
unfolding count_one add_success add_fail add_filtered
counted_nothing c s e = ground (arith, e)

counted_something :
    (c : Counted) (s : AppStats)
    → eqb c.n 0 ≡ false
    → count_one c s ≡ tally c (ensure_biz_day c.day s)
unfolding count_one add_success add_fail add_filtered tally
counted_something c s e = ground (arith, e)

amount_nothing : (k : Outcome) (c : Counted) → eqb c.n 0 ≡ true → amount k c ≡ 0
unfolding amount
amount_nothing k c e = ground (arith, e)

same_sum : (a t n : ℕ) → a ≡ t % modulus → (a + n) % modulus ≡ (t + n) % modulus
same_sum a t n e = rw e (Nat.mod-add-mod t modulus n)

add_nothing : (a t : ℕ) → a ≡ t % modulus → a ≡ (t + 0) % modulus
add_nothing a t e = let z : t + 0 ≡ t = omega arith in rw z e

today_of-tally :
    (k : Outcome) (c : Counted) (s : AppStats) (t : ℕ)
    → today_of k s ≡ t % modulus
    → today_of k (tally c s) ≡ (t + amount k c) % modulus
unfolding today_of tally amount count_success count_fail count_filtered
today_of-tally k c s t e =
    ground (arith, same_sum (today_of k s) t c.n e, add_nothing (today_of k s) t e)

total_of-tally :
    (k : Outcome) (c : Counted) (s : AppStats) (t : ℕ)
    → total_of k s ≡ t % modulus
    → total_of k (tally c s) ≡ (t + amount k c) % modulus
unfolding total_of tally amount count_success count_fail count_filtered
total_of-tally k c s t e =
    ground (arith, same_sum (total_of k s) t c.n e, add_nothing (total_of k s) t e)

biz_day-tally : (c : Counted) (s : AppStats) → (tally c s).biz_day ≡ s.biz_day
unfolding tally count_success count_fail count_filtered
biz_day-tally c s = ground arith

total_of-ensure_biz_day :
    (k : Outcome) (day : Text) (s : AppStats) → total_of k (ensure_biz_day day s) ≡ total_of k s
unfolding total_of ensure_biz_day
total_of-ensure_biz_day k day s = ground arith

ensured_day :
    (day : Text) (s : AppStats) → text_same day [] ≡ false → (ensure_biz_day day s).biz_day ≡ day
unfolding ensure_biz_day
ensured_day day s h = ground (arith, text_same-eq s.biz_day day, h)

today_of-ensure_biz_day :
    (k : Outcome) (day : Text) (s : AppStats)
    → text_same day [] ≡ false
    → today_of k (ensure_biz_day day s) ≡ (if text_same s.biz_day day then today_of k s else 0)
unfolding today_of ensure_biz_day
today_of-ensure_biz_day k day s h = ground (arith, text_same-eq s.biz_day day, h)

day_after :
    (c : Counted) (s : AppStats) → eqb c.n 0 ≡ false → HasDay c → (count_one c s).biz_day ≡ c.day
day_after c s z h =
    rw (counted_something c s z, biz_day-tally c (ensure_biz_day c.day s)) (ensured_day c.day s h)

-- Calls on no other day than the one that is counted.
on_day_other :
    (calls : List Counted) (day first_day : Text)
    → All HasDay calls
    → text_same (count_calls calls (new_app_stats first_day)).biz_day day ≡ false
    → on_day day calls ≡ []
unfolding on_day count_calls
on_day_other [] day first_day h e = refl
on_day_other (c ∷ earlier) day first_day h e = elim (Bool-cases (eqb c.n 0)) [
  | inl z ↦ rw z (
      on_day_other earlier day first_day h.1
        (rw (counted_nothing c (count_calls earlier (new_app_stats first_day)) z) at e))
  | inr z ↦
      ground (arith, z, rw (day_after c (count_calls earlier (new_app_stats first_day)) z h.0) at e)
]

-- The day's counter before a call on a day, once the day is set.
today_before :
    (k : Outcome) (calls : List Counted) (first_day day : Text)
    → All HasDay calls
    → text_same day [] ≡ false
    → let s = count_calls calls (new_app_stats first_day) in
      today_of k s ≡ total k (on_day s.biz_day calls) % modulus
      → today_of k (ensure_biz_day day s) ≡ total k (on_day day calls) % modulus
unfolding total
today_before k calls first_day day h d ih =
    let s = count_calls calls (new_app_stats first_day) in
    elim (Bool-cases (text_same s.biz_day day)) [
      | inl e ↦
          rw (today_of-ensure_biz_day k day s d, e)
            (ih ∙ ap (λ b. total k (on_day b calls) % modulus) (text_same-eq s.biz_day day e))
      | inr e ↦ rw (today_of-ensure_biz_day k day s d, e, on_day_other calls day first_day h e) refl
    ]

on_day_skip :
    (day : Text) (c : Counted) (earlier : List Counted)
    → eqb c.n 0 ≡ true
    → on_day day (c ∷ earlier) ≡ on_day day earlier
unfolding on_day
on_day_skip day c earlier z = ground (arith, z)

on_day_take :
    (c : Counted) (earlier : List Counted)
    → eqb c.n 0 ≡ false
    → on_day c.day (c ∷ earlier) ≡ c ∷ on_day c.day earlier
unfolding on_day
on_day_take c earlier z = ground (arith, z, text_same_refl c.day)

started :
    (k : Outcome) (first_day : Text)
    → let s = new_app_stats first_day in
      (today_of k s ≡ total k (on_day s.biz_day []) % modulus) × (total_of k s ≡ 0 % modulus)
unfolding today_of total_of new_app_stats total on_day
started succeeded first_day = (refl, refl)
started failed first_day = (refl, refl)
started filtered first_day = (refl, refl)

-- From a start on a given day, after any calls of AddSuccess, AddFail and AddFiltered one after
-- another, none of which overlaps another: today's counter of each kind is the sum of the calls since
-- the day last changed, and the whole counter the sum of all calls, both as 64-bit numbers.
pub count_calls-sums :
    (k : Outcome) (calls : List Counted) (first_day : Text)
    → All HasDay calls
    → let s = count_calls calls (new_app_stats first_day) in
      (today_of k s ≡ total k (on_day s.biz_day calls) % 2 ^ 64)
      × (total_of k s ≡ total k calls % 2 ^ 64)
unfolding count_calls total
count_calls-sums k [] first_day h = started k first_day
count_calls-sums k (c ∷ earlier) first_day h =
    let s = count_calls earlier (new_app_stats first_day) in
    let ih = count_calls-sums k earlier first_day h.1 in
    elim (Bool-cases (eqb c.n 0)) [
      | inl z ↦
          rw (counted_nothing c s z, amount_nothing k c z, on_day_skip s.biz_day c earlier z)
            (ih.0, add_nothing (total_of k s) (total k earlier) ih.1)
      | inr z ↦
          (let e = ensure_biz_day c.day s in
            let d = biz_day-tally c e ∙ ensured_day c.day s h.0 in
            rw (counted_something c s z) (
              today_of-tally k c e (total k (on_day c.day earlier))
                    (today_before k earlier first_day c.day h.1 h.0 ih.0)
                  ∙ sym (
                      ap (λ b. total k (on_day b (c ∷ earlier)) % modulus) d
                      ∙ ap (λ l. total k l % modulus) (on_day_take c earlier z)),
              total_of-tally k c e (total k earlier) (total_of-ensure_biz_day k c.day s ∙ ih.1),
            ))
    ]
