-- ===== src/Retry/Loop.antt =====
-- How often `Do` calls the function, and what it returns.
use tgvive.Retry.{Env, RetryStrategy, Outcome, turn, attempts, max_of, do_retry}
use tgvive.Prelude.{
  ℕ, List, ◌≡◌, length, ◌∷◌, [], ◌≤◌, suc, ◌⊎◌, arith, zero, inl, inr, refl, Option, Bool, leb, ◌+◌,
  true, false, ◌<◌, some, ◌||◌, none,
}

-- The attempts from one on, as many as there are calls.
abbrev pub IsRange : ℕ → List ℕ → Type 0
IsRange a [] = Unit
IsRange a (x ∷ xs) = (x ≡ a) × IsRange (suc a) xs

abbrev pub is_none {ℓ} : {A : Type ℓ} → Option A → Bool
is_none none = true
is_none (some a) = false

-- Whether one of the attempts succeeded.
unfoldable pub any_ok : {Err : Type 0} → Env Err → List ℕ → Bool
any_ok env [] = false
any_ok env (a ∷ rest) = is_none (env.call a) || any_ok env rest

module _ {Err : Type 0} (env : Env Err) (s : RetryStrategy) where
  turn_cases :
      (max attempt : ℕ) (later : Outcome Err)
      → (turn env s max attempt later).calls ≡ []
        ⊎ ((turn env s max attempt later).calls ≡ attempt ∷ [])
        ⊎ ((turn env s max attempt later).calls ≡ attempt ∷ later.calls)
  unfolding turn
  turn_cases max attempt later = ground arith

  -- The loop calls the function at the attempts from one on, in order, and at most as often as
  -- attempts are left.
  attempts_bounded :
      (max left attempt : ℕ)
      → IsRange attempt (attempts env s max left attempt).calls
        × (length (attempts env s max left attempt).calls ≤ left)
  unfolding attempts
  attempts_bounded max zero attempt = (tt, omega arith)
  attempts_bounded max (suc left) attempt =
      let (r, l) = attempts_bounded max left (suc attempt) in
      elim (turn_cases max attempt (attempts env s max left (suc attempt))) [
        | inl e ↦ rw e (tt, omega arith)
        | inr (inl e) ↦ rw e ((refl, tt), omega arith)
        | inr (inr e) ↦ rw e ((refl, r), omega (arith, l))
      ]

  turn_result :
      (max attempt : ℕ) (later : Outcome Err)
      → (leb max attempt ≡ false → is_none later.result ≡ any_ok env later.calls)
      → is_none (turn env s max attempt later).result
        ≡ any_ok env (turn env s max attempt later).calls
  unfolding turn any_ok
  turn_result max attempt later h = ground (arith, h)

  attempts_result :
      (max left attempt : ℕ)
      → attempt + left ≡ suc max
      → 0 < left
      → is_none (attempts env s max left attempt).result
        ≡ any_ok env (attempts env s max left attempt).calls
  unfolding attempts
  attempts_result max zero attempt e l = absurd (omega (arith, l))
  attempts_result max (suc left) attempt e l =
      turn_result max attempt (attempts env s max left (suc attempt)) (λ more.
        attempts_result max left (suc attempt) (omega (arith, e)) (ground (arith, e, more)))

  max_of_pos : 0 < max_of env s
  unfolding max_of
  max_of_pos = ground arith

  -- `Do` returns no error exactly when one of the calls that it made returned none, and it makes the
  -- calls at the attempts 1, 2, … in order, as many as the strategy says at most, or one where that
  -- number is not positive.
  pub do_retry_lem :
      (is_none (do_retry env s).result ≡ any_ok env (do_retry env s).calls)
      × IsRange 1 (do_retry env s).calls
      × (length (do_retry env s).calls ≤ max_of env s)
  unfolding do_retry
  do_retry_lem =
      let (range, most) = attempts_bounded (max_of env s) (max_of env s) 1 in
      (attempts_result (max_of env s) (max_of env s) 1 (omega arith) max_of_pos, range, most)
