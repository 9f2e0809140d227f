-- ===== src/Schedule/Rules.antt =====
-- When the slot of a rule is open, when it closes, and when it opens next.
use tgvive.Schedule.{
  ParsedRule, ScheduleRule, Warning, parsed_rule, parse_rule, add_rule, parse_rules_from, contains,
  end_time, next_start,
}
use tgvive.Prelude.{
  ◌<◌, ℕ, ◌≡◌, List, arith, All, true, false, eqb, length, ◌≤◌, ltb, ◌+◌, ◌∷◌, [], subst, refl, suc,
}
use tgvive.Clock.{next_day, date_at, Time, day_ns}
use tgvive.Prelude.Int.{pos, ℤ, ◌≤ℤ◌}
use tgvive.Prelude.Results.{ok, Result, map_err, ◌>>=◌, err}
use tgvive.Window.{TimeError, parse_hhmm}
use tgvive.Clock.Laws.{minutes_of_lem, time_at_minutes_lem, minutes_of-time_at_minutes}
use tgvive.Window.Parse.{parse_hhmm-lt}

-- What a rule that was parsed satisfies.
pub record IsRule (r : ParsedRule) : Type 0 where
  pub start_in_day : r.start_min < 1440
  pub end_in_day : r.end_min < 1440
  pub limit_nonneg : pos 0 ≤ℤ r.limit
  pub all_day_iff : r.all_day ≡ eqb r.start_min r.end_min
  pub cross_iff : r.cross_midnight ≡ ltb r.end_min r.start_min

parsed_rule-IsRule : (a b : ℕ) (limit : ℤ) → a < 1440 → b < 1440 → IsRule (parsed_rule a b limit)
unfolding parsed_rule
parsed_rule-IsRule a b limit h k = ground arith

parse_rule-IsRule : (i : ℕ) (r : ScheduleRule) (p : ParsedRule) → parse_rule i r ≡ ok p → IsRule p
unfolding parse_rule
parse_rule-IsRule i r p e =
    ends (parse_hhmm r.start) (parse_hhmm r.end) (parse_hhmm-lt r.start) (parse_hhmm-lt r.end) e
  where
    ends :
        (a b : Result TimeError ℕ)
        → ((n : ℕ) → a ≡ ok n → n < 1440)
        → ((n : ℕ) → b ≡ ok n → n < 1440)
        → (map_err (Warning.bad_start i) a >>= λ x.
            map_err (Warning.bad_end i) b >>= λ y. ok (parsed_rule x y r.limit))
          ≡ ok p
        → IsRule p
    ends (ok a) (ok b) h k q =
        subst IsRule (cc) (parsed_rule-IsRule a b r.limit (h a refl) (k b refl))
    ends (ok a) (err y) h k q = cc
    ends (err x) b h k q = cc

add_rule-IsRule :
    (p : Result Warning ParsedRule) (rules : List ParsedRule) (warns : List Warning)
    → ((r : ParsedRule) → p ≡ ok r → IsRule r)
    → All IsRule rules
    → All IsRule (add_rule p (rules, warns)).0
      × (length (add_rule p (rules, warns)).0 + length (add_rule p (rules, warns)).1
          ≡ suc (length rules + length warns))
unfolding add_rule
add_rule-IsRule (ok r) rules warns h k = ((h r refl, k), omega arith)
add_rule-IsRule (err w) rules warns h k = (k, omega arith)

-- Every rule that `parseScheduleRules` keeps is well formed, and each decoded rule is either kept or
-- named by a warning.
pub parse_rules-IsRule :
    (i : ℕ) (rs : List ScheduleRule)
    → All IsRule (parse_rules_from i rs).0
      × (length (parse_rules_from i rs).0 + length (parse_rules_from i rs).1 ≡ length rs)
unfolding parse_rules_from
parse_rules-IsRule i [] = (tt, refl)
parse_rules-IsRule i (r ∷ rs) =
    let (kept, counted) = parse_rules-IsRule (suc i) rs in
    let (rules, warns) = parse_rules_from (suc i) rs in
    let (kept', counted') =
      add_rule-IsRule (parse_rule i r) rules warns (parse_rule-IsRule i r) kept in
    (kept', omega (arith, counted, counted'))

-- An open slot stays open up to its end and is shut at its end, unless it lasts all day; the end lies
-- ahead.
pub end_time_exact :
    (r : ParsedRule) (now : Time)
    → IsRule r
    → contains r now ≡ true
    → (now < end_time r now)
      × (contains r (end_time r now) ≡ r.all_day)
      × ((t : Time) → now ≤ t → t < end_time r now → contains r t ≡ true)
unfolding contains end_time next_day date_at
end_time_exact r now v e = (
  ground (
    arith,
    minutes_of_lem now,
    time_at_minutes_lem now r.end_min,
    time_at_minutes_lem (now + day_ns) r.end_min,
  ),
  ground (
    arith,
    minutes_of_lem now,
    minutes_of-time_at_minutes now r.end_min,
    minutes_of-time_at_minutes (now + day_ns) r.end_min,
  ),
  λ t l m. ground (
    arith,
    minutes_of_lem now,
    minutes_of_lem t,
    time_at_minutes_lem now r.end_min,
    time_at_minutes_lem (now + day_ns) r.end_min,
  ),
)

-- Outside a slot, the next start is the first instant at which the slot is open.
pub next_start_earliest :
    (r : ParsedRule) (now : Time)
    → IsRule r
    → contains r now ≡ false
    → (now < next_start r now)
      × (contains r (next_start r now) ≡ true)
      × ((t : Time) → now ≤ t → t < next_start r now → contains r t ≡ false)
unfolding contains next_start next_day
next_start_earliest r now v e = (
  ground (
    arith,
    minutes_of_lem now,
    time_at_minutes_lem now r.start_min,
    time_at_minutes_lem (now + day_ns) r.start_min,
  ),
  ground (
    arith,
    minutes_of_lem now,
    minutes_of-time_at_minutes now r.start_min,
    minutes_of-time_at_minutes (now + day_ns) r.start_min,
  ),
  λ t l m. ground (
    arith,
    minutes_of_lem now,
    minutes_of_lem t,
    time_at_minutes_lem now r.start_min,
    time_at_minutes_lem (now + day_ns) r.start_min,
  ),
)
