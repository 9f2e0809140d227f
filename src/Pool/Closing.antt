-- ===== src/Pool/Closing.antt =====
-- A send that races with Shutdown.
use tgvive.Pool.{
  run_pool, and_then, pool_step, enter_pool, with_sender, pull, send_item, Sender, Pool, enter,
  set_closed, close_channel, send, panicked,
}
use tgvive.Prelude.{◌≡◌, false, [], ◌∷◌, refl}

module _ {Err : Type 0} where
  -- A goroutine that has entered Submit or TrySubmit of an open pool, with no other there, panics,
  -- whatever it was to send, if Shutdown closes the channel before it sends.
  pub shutdown_panics :
      (s : Sender Err) (p : Pool Err)
      → p.closed ≡ false
      → p.senders ≡ []
      → run_pool (enter s ∷ set_closed ∷ close_channel ∷ send 0 ∷ []) p ≡ panicked
  unfolding run_pool and_then pool_step enter_pool with_sender pull send_item
  shutdown_panics s p open_pool none_else = rw (open_pool, none_else) refl
