-- ===== src/Realtime/Budget.antt =====
-- The budget of a poll.
use tgvive.Prelude.{All, ◌≤◌, arith, Bool-cases, inl, inr, ◌||◌}
use tgvive.Realtime.Poll.{PollEnv, Poll, catch_up_units, poll_from, start_poll, poll_iterations}
use tgvive.Prelude.Int.{ℤ, pos, ◌≤ℤ◌, eqb_ℤ, leb_ℤ}
use tgvive.Realtime.Dispatch.{World}
use tgvive.Realtime.{latest_processed_id, advance_cursor}
use tgvive.Realtime.Spending.{count_plain, IsBudgeted, IsAhead, pages-IsBudgeted}

module _ {Err Entity : Type 0} (env : PollEnv Err Entity) where
  started :
      (remaining remote : ℤ) (w : World Entity)
      → IsBudgeted env remaining (latest_processed_id w.rt) remote (start_poll env w)
  unfolding start_poll count_plain
  started remaining remote w = record {
    units_le = λ r. omega arith;
    plain_le = omega arith;
    ahead = tt;
    page_le = omega arith;
  }

  catch_up_units_le :
      (remaining : ℤ)
      → pos 0 ≤ℤ remaining
      → (pos (catch_up_units remaining) ≤ℤ remaining) × (catch_up_units remaining ≤ 500)
  unfolding catch_up_units
  catch_up_units_le remaining h = ground arith

  abbrev IsWithinBudget : ℤ → ℤ → ℤ → Poll Entity → Type 0
  IsWithinBudget remaining last remote st =
      (pos 0 ≤ℤ remaining → (pos st.units ≤ℤ remaining) × (st.units ≤ 500))
      × (count_plain env st.found ≤ st.units)
      × All (IsAhead last remote) st.found

  within :
      (remaining last remote : ℤ) (st : Poll Entity)
      → IsBudgeted env remaining last remote st
      → IsWithinBudget remaining last remote st
  within remaining last remote st v = (
    λ r.
        (let (a, b) = catch_up_units_le remaining r in
          let c = v.units_le r in (omega arith, omega arith)),
    v.plain_le,
    v.ahead,
  )

  nothing_found :
      (remaining last remote : ℤ) (w : World Entity)
      → IsWithinBudget remaining last remote (start_poll env w)
  unfolding start_poll count_plain
  nothing_found remaining last remote w = (λ r. (omega arith, omega arith), omega arith, tt)

  -- Whatever the server answers and whatever happens meanwhile: where the scheduler limits the task,
  -- a poll spends no more units than it has left for the task, and 500 at most; limited or not, as many
  -- plain messages as it dispatched have each cost a unit, and the ID of each message that it
  -- dispatched lies behind the last one that was copied when it began, and not behind the last one
  -- that there was.
  pub poll_within_budget :
      (remaining remote : ℤ) (w : World Entity)
      → let st = poll_from env remaining remote w in
        (pos 0 ≤ℤ remaining → (pos st.units ≤ℤ remaining) × (st.units ≤ 500))
        × (count_plain env st.found ≤ st.units)
        × All (IsAhead (latest_processed_id w.rt) remote) st.found
  unfolding poll_from
  poll_within_budget remaining remote w =
      let last = latest_processed_id w.rt in
      elim (Bool-cases (leb_ℤ last (pos 0))) [
        | inl e ↦
            rw e (
              nothing_found remaining last remote
                (record w { rt = (advance_cursor remote w.rt).0 }))
        | inr e ↦ elim (Bool-cases (leb_ℤ remote last || eqb_ℤ remaining (pos 0))) [
          | inl f ↦ rw (e, f) (nothing_found remaining last remote w)
          | inr f ↦
              rw (e, f)
                (within remaining last remote _ (
                  pages-IsBudgeted env remaining last remote poll_iterations last (start_poll env w)
                    (omega arith) (started remaining remote w)))
        ]
      ]
