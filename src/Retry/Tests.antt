-- ===== src/Retry/Tests.antt =====
-- Runs of pkg/retry: a delay that is doubled and cut, one that falls back, and three attempts.
use tgvive.Prelude.Int.{pos}
use tgvive.Retry.{backoff, Env, RetryStrategy, do_retry, attempts, turn, max_of}
use tgvive.Retry.Loop.{IsRange, is_none, any_ok, do_retry_lem}
use tgvive.Prelude.{
  ◌≡◌, ◌*◌, ℕ, ◌^◌, none, length, if◌then◌else◌, ◌≤◌, arith, ltb, ◌∷◌, some, [], true, refl,
}
use tgvive.Retry.Delay.{backoff_collapses}

backoff_collapses_example :
    backoff (pos 40) (pos (2 * 2 ^ 34)) (pos 600000000000) ≡ pos (2 * 2 ^ 34)
backoff_collapses_example =
    backoff_collapses 40 2 (pos 600000000000) (omega arith) (omega arith) (omega arith)
      (omega arith)

-- The first two calls fail, and the third succeeds.
abbrev flaky : Env ℕ
flaky = record {
  ctx_err = λ a. none;
  call = λ a. if ltb a 3 then some a else none;
  should_retry = λ e. true;
  jitter = λ d. d;
  sleep = λ a d. none;
}

abbrev five_times : RetryStrategy
five_times = record { max_attempts = pos 5; base_delay = pos 0; max_delay = pos 0 }

three_calls : (do_retry flaky five_times).calls ≡ 1 ∷ 2 ∷ 3 ∷ []
unfolding do_retry attempts turn max_of
three_calls = refl

do_retry_lem_example :
    (is_none (do_retry flaky five_times).result ≡ any_ok flaky (do_retry flaky five_times).calls)
    × IsRange 1 (do_retry flaky five_times).calls
    × (length (do_retry flaky five_times).calls ≤ max_of flaky five_times)
do_retry_lem_example = do_retry_lem flaky five_times
