-- ===== src/History/Descent.antt =====
-- The copy from new to old and the catch-up, which return like the copy from old to new.
use tgvive.History.Data.{Env, Request, Copy, note, persisted, max_only}
use tgvive.Prelude.{
  ℕ, List, ◌<◌, false, ◌≡◌, Bool-cases, inl, subst, arith, inr, ◌∷◌, refl, Bool, Option,
  if◌then◌else◌, some, [], none, true,
}
use tgvive.History.Steps.{
  IsAnswer, Continues, stop-Continues, left_to_do, limit-Continues, run_page-Continues,
}
use tgvive.History.{Bounds}
use tgvive.History.Loops.{
  clone_history_new_to_old, run_page_down, turn_new_to_old, see_page, run_seen, run_page,
}
use tgvive.Prelude.Int.{ℤ, ltb_ℤ}
use tgvive.History.Modes.{start_new_to_old, new_to_old, page_max}
use tgvive.History.Runs.{Invariant}
use tgvive.Prelude.Results.{Result, err, ok}
use tgvive.History.Copies.{below, IsCopyFrom, below-IsMeasure}
use tgvive.History.Laws.{new_to_old-IsMode}
use tgvive.Filter.{Msg}
use tgvive.History.Total.{Returns, run_turns-Returns}
use tgvive.Prelude.{none, some}

module _ {Err Entity : Type 0} (env : Env Err Entity) (top : ℕ)
    (answers : (turn : ℕ) (q : Request) → IsAnswer top (env.fetch turn q)) where
  module _ (b : Bounds) (start : ℤ) where
    -- The state of this copy never includes its cursor.
    not_included :
        (st : Copy Entity)
        → Invariant env (new_to_old b) (new_to_old-IsMode b) start false st
        → st.include_once ≡ false
    not_included st (order, (at, same, first)) = elim (Bool-cases st.include_once) [
      | inl e ↦ same (first e)
      | inr e ↦ e
    ]

    run_plain-Continues :
        (st : Copy Entity) (answer : Result Err (List (Msg Entity)))
        → Invariant env (new_to_old b) (new_to_old-IsMode b) start false st
        → IsAnswer top answer
        → Continues env
            (new_to_old b)
            (new_to_old-IsMode b)
            start
            false
            top
            (below top)
            (below-IsMeasure b top)
            st
            (run_page env (new_to_old b) false st answer)
    run_plain-Continues st answer inv h =
        subst
          (λ include.
            Continues env (new_to_old b) (new_to_old-IsMode b) start false top (below top)
              (below-IsMeasure b top) st (run_page env (new_to_old b) include st answer))
          (not_included st inv)
          (run_page-Continues env (new_to_old b) (new_to_old-IsMode b) start false top (below top)
            (below-IsMeasure b top) st answer inv h)

    run_page_down-Continues :
        (st : Copy Entity) (answer : Result Err (List (Msg Entity)))
        → Invariant env (new_to_old b) (new_to_old-IsMode b) start false st
        → IsAnswer top answer
        → Continues env
            (new_to_old b)
            (new_to_old-IsMode b)
            start
            false
            top
            (below top)
            (below-IsMeasure b top)
            st
            (run_page_down env (new_to_old b) st answer)
    unfolding run_page_down see_page run_seen note Continues
    run_page_down-Continues st (err e) inv h = inv.0
    run_page_down-Continues st (ok []) inv h = inv.0
    run_page_down-Continues st (ok (m ∷ ms)) inv h =
        seen (ltb_ℤ st.max_seen (page_max (m ∷ ms)))
          (env.persist st.turn (max_only (page_max (m ∷ ms))))
      where
        seen :
            (raised : Bool) (saved : Option Err)
            → Continues env
                (new_to_old b)
                (new_to_old-IsMode b)
                start
                false
                top
                (below top)
                (below-IsMeasure b top)
                st
                (run_seen env (new_to_old b) st (m ∷ ms) (
                  if raised
                  then elim saved [
                    | some e ↦ err e
                    | none ↦ ok (
                        note
                          (persisted (max_only (page_max (m ∷ ms))))
                          (record st { max_seen = page_max (m ∷ ms) }))
                  ]
                  else ok st))
        seen false saved = run_plain-Continues st (ok (m ∷ ms)) inv h
        seen true (some e) = inv.0
        seen true none = run_plain-Continues _ (ok (m ∷ ms)) inv h

    turn_new_to_old-Continues :
        (page_size : ℤ) (st : Copy Entity)
        → Invariant env (new_to_old b) (new_to_old-IsMode b) start false st
        → Continues env
            (new_to_old b)
            (new_to_old-IsMode b)
            start
            false
            top
            (below top)
            (below-IsMeasure b top)
            st
            (turn_new_to_old env b page_size st)
    unfolding turn_new_to_old
    turn_new_to_old-Continues page_size st inv =
        let laws = new_to_old-IsMode b in
        let near = below-IsMeasure b top in
        stop-Continues env (new_to_old b) laws start false top (below top) near _ st _ inv (
          limit-Continues env (new_to_old b) laws start false top (below top) near _ st _ inv
            (run_page_down-Continues st _ inv (answers _ _)))

  -- The copy from new to old returns, whatever the other parts do, if every answer holds positive IDs
  -- that differ and are at most `top`, and the loop has more turns than there are IDs below the cursor
  -- at which it starts. The messages that it has then recorded are counted, stand in the falling order
  -- of their IDs, so that none is there twice, and are within the bounds and below that cursor, if
  -- it is positive.
  pub clone_history_new_to_old-Returns :
      (b : Bounds) (page_size cursor max_seen : ℤ) (fuel : ℕ)
      → below top (start_new_to_old {Entity = Entity} b cursor max_seen).cursor < fuel
      → Returns
          (λ e st. IsCopyFrom (new_to_old b) (start_new_to_old b cursor max_seen) st)
          (clone_history_new_to_old env b page_size cursor max_seen fuel)
  unfolding clone_history_new_to_old start_new_to_old Continues
  clone_history_new_to_old-Returns b page_size cursor max_seen fuel enough =
      let first = start_new_to_old {Entity = Entity} b cursor max_seen in
      run_turns-Returns (turn_new_to_old env b page_size)
        (left_to_do env (new_to_old b) (new_to_old-IsMode b) first.cursor false top (below top)
          (below-IsMeasure b top))
        (Invariant env (new_to_old b) (new_to_old-IsMode b) first.cursor false) _
        (turn_new_to_old-Continues b first.cursor page_size) fuel first (omega (arith, enough))
        ((tt, tt, tt, refl), (refl, (λ e. refl), (λ e. refl)))
