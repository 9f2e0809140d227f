-- ===== src/Quota/Rounds.antt =====
-- The loop of the wait for the quota ends where one of its rounds returns.
use tgvive.Prelude.{ℕ, ◌<◌, ◌+◌, arith, suc, subst, zero}
use tgvive.Quota.{
  QuotaEnv, Round, Waited, Waiting, wait_rounds, returns, waited, sleeps, still_waiting,
  quota_round,
}
use tgvive.Prelude.Int.{ℤ}

module _ {Err : Type 0} (env : QuotaEnv Err) (need : ℤ) where
  -- A round that returns, whatever the state of the wait.
  abbrev pub IsReturn : Round Err → Type 0
  IsReturn (returns e w) = Unit {0}
  IsReturn (sleeps d w) = ⊥

  abbrev pub HasReturned : Waited Err → Type 0
  HasReturned (waited e w) = Unit {0}
  HasReturned (still_waiting w) = ⊥

  unfoldable pub Keeps : (Waiting → Type 0) → Round Err → Type 0
  Keeps P (returns e w) = Unit {0}
  Keeps P (sleeps d w) = P w

  pub wait_rounds-ends :
      (P : Waiting → Type 0) (ahead fuel round : ℕ) (w : Waiting)
      → ahead < fuel
      → ((k : ℕ) (v : Waiting) → k < ahead → P v → Keeps P (quota_round env (round + k) need v))
      → ((v : Waiting) → P v → IsReturn (quota_round env (round + ahead) need v))
      → P w
      → HasReturned (wait_rounds env fuel round need w)
  unfolding wait_rounds Keeps
  wait_rounds-ends P ahead zero round w h keep last p = absurd (omega arith)
  wait_rounds-ends P zero (suc fuel) round w h keep last p =
      at_end (quota_round env round need w)
        (subst (λ n. IsReturn (quota_round env n need w)) (omega arith) (last w p))
    where
      at_end :
          (r : Round Err)
          → IsReturn r
          → HasReturned (elim r [
            | returns e w' ↦ waited e w'
            | sleeps d w' ↦ wait_rounds env fuel (suc round) need w'
          ])
      at_end (returns e w') q = tt
      at_end (sleeps d w') q = absurd q
  wait_rounds-ends P (suc ahead) (suc fuel) round w h keep last p =
      on_way (quota_round env round need w)
        (subst (λ n. Keeps P (quota_round env n need w)) (omega arith) (keep 0 w (omega arith) p))
        (λ w' p'.
          wait_rounds-ends P ahead fuel (suc round) w' (omega arith)
            (λ k v less q.
              subst (λ n. Keeps P (quota_round env n need v)) (omega arith)
                (keep (suc k) v (omega arith) q))
            (λ v q. subst (λ n. IsReturn (quota_round env n need v)) (omega arith) (last v q)) p')
    where
      on_way :
          (r : Round Err)
          → Keeps P r
          → ((w' : Waiting) → P w' → HasReturned (wait_rounds env fuel (suc round) need w'))
          → HasReturned (elim r [
            | returns e w' ↦ waited e w'
            | sleeps d w' ↦ wait_rounds env fuel (suc round) need w'
          ])
      on_way (returns e w') q later = tt
      on_way (sleeps d w') q later = later w' q
