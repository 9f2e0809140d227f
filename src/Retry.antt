-- ===== src/Retry.antt =====
-- pkg/retry: the delay before a retry (backoff.go) and the retry loop (strategy.go). The context, the
-- function that is tried, the jitter (a random number of floats) and the sleep are the environment:
-- what they answer at each attempt is an argument. OnRetry, a callback that reports, is left out.
pub mod Delay
pub mod Loop
mod Tests
use tgvive.Prelude.Int64.{◌*i◌, ◌-i◌}
use tgvive.Prelude.Int.{ℤ, pos, leb_ℤ, ltb_ℤ, pos_part}
use tgvive.Prelude.{
  ℕ, Option, if◌then◌else◌, Bool, List, some, none, ◌^◌, [], ltb, ◌||◌, ◌∷◌, suc, leb, zero, not,
}

-- 250 milliseconds and 30 seconds.
abbrev pub default_base : ℤ
default_base = pos 250000000

abbrev pub default_max : ℤ
default_max = pos 30000000000

-- A setting that is not positive gives way to the default.
abbrev pub or_default : ℤ → ℤ → ℤ
or_default n default = if leb_ℤ n (pos 0) then default else n

-- The doublings of the base: one for each attempt after the first, 30 at most.
pub shift_of : ℤ → ℕ
shift_of attempt =
    let a = if leb_ℤ attempt (pos 0) then pos 1 else attempt in
    if ltb 30 (pos_part (a -i pos 1)) then 30 else pos_part (a -i pos 1)

-- `d`, cut at the maximum and then raised to the base.
pub cut : ℤ → ℤ → ℤ → ℤ
cut base max d =
    let capped = if ltb_ℤ d (pos 0) || ltb_ℤ max d then max else d in
    if ltb_ℤ capped base then base else capped

pub backoff : ℤ → ℤ → ℤ → ℤ
backoff attempt base max =
    let b = or_default base default_base in
    cut b (or_default max default_max) (b *i pos (2 ^ shift_of attempt))

-- What the environment answers at each attempt.
pub record Env (Err : Type 0) : Type 0 where
  pub ctx_err : ℕ → Option Err
  pub call : ℕ → Option Err
  pub should_retry : Err → Bool
  pub jitter : ℤ → ℤ
  pub sleep : ℕ → ℤ → Option Err

pub record RetryStrategy : Type 0 where
  pub max_attempts : ℤ
  pub base_delay : ℤ
  pub max_delay : ℤ

-- What `Do` returns, and the attempts at which it called the function, in order.
pub record Outcome (Err : Type 0) : Type 0 where
  pub result : Option Err
  pub calls : List ℕ

module _ {Err : Type 0} (env : Env Err) (s : RetryStrategy) where
  -- The turn at an attempt, with what the later turns make.
  pub turn : ℕ → ℕ → Outcome Err → Outcome Err
  turn max attempt later = elim (env.ctx_err attempt) [
    | some e ↦ record { result = some e; calls = [] }
    | none ↦ elim (env.call attempt) [
      | none ↦ record { result = none; calls = attempt ∷ [] }
      | some e ↦
          if leb max attempt || not (env.should_retry e)
          then record { result = some e; calls = attempt ∷ [] }
          else elim (env.sleep attempt
              (env.jitter (backoff (pos attempt) s.base_delay s.max_delay))) [
                | some stopped ↦ record { result = some stopped; calls = attempt ∷ [] }
                | none ↦ record { result = later.result; calls = attempt ∷ later.calls }
              ]
    ]
  ]

  -- The loop, with the attempts that are left: when none is, the last one has left it by `break`.
  pub attempts : ℕ → ℕ → ℕ → Outcome Err
  attempts max zero attempt = record { result = none; calls = [] }
  attempts max (suc left) attempt =
      let later = attempts max left (suc attempt) in turn max attempt later

  pub max_of : ℕ
  max_of = if leb_ℤ s.max_attempts (pos 0) then 1 else pos_part s.max_attempts

  pub do_retry : Outcome Err
  do_retry = attempts max_of max_of 1
