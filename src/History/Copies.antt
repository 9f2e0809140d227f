-- ===== src/History/Copies.antt =====
-- The three copies return, whatever the parts that they use answer, and take no message twice.
use tgvive.Prelude.{
  ℕ, suc, if◌then◌else◌, ◌+◌, arith, ◌-◌, All, Bool, ◌≡◌, ◌<◌, false, [], length, refl,
}
use tgvive.History.Modes.{passed, old_to_new, catch_up, new_to_old, start_old_to_new}
use tgvive.History.{Bounds}
use tgvive.Prelude.Int.{ℤ, ltb_ℤ, neg_part, pos, eqb_ℤ_iff, pos_part, eq_of_parts, leb_ℤ}
use tgvive.History.Runs.{IsMeasure, Invariant}
use tgvive.History.Steps.{
  UpTo, IsAnswer, Continues, left_to_do, stop-Continues, limit-Continues, run_page-Continues,
}
use tgvive.History.Data.{Mode, Env, Copy, Request}
use tgvive.History.Groups.{IsStrict, IsPositive}
use tgvive.History.Loops.{turn_old_to_new, clone_history_old_to_new}
use tgvive.History.Total.{Returns, run_turns-Returns}
use tgvive.History.Laws.{old_to_new-IsMode}

-- How many IDs are left above a cursor.
abbrev pub above : ℕ → ℤ → ℕ
above top cursor = suc top + neg_part cursor - pos_part cursor

-- How many are left below it, where a cursor that is not positive means all.
abbrev pub below : ℕ → ℤ → ℕ
below top cursor = if ltb_ℤ (pos 0) cursor then pos_part cursor else suc top

-- The messages taken stand in the mode's order, so none is there twice; they are counted, and all
-- were wanted at the start.
abbrev pub IsCopyFrom : {Entity : Type 0} → Mode Entity → Copy Entity → Copy Entity → Type 0
IsCopyFrom mode start st =
    IsStrict mode.less st.taken
    × All IsPositive st.taken
    × All (λ m. mode.skips start.include_once start.cursor m.id ≡ false) st.taken
    × (st.processed ≡ length st.taken)

module _ {Entity : Type 0} where
  above-IsMeasure_old :
      (b : Bounds) (top : ℕ) → IsMeasure (old_to_new {Entity = Entity} b) (UpTo top) (above top)
  unfolding passed
  above-IsMeasure_old b top = record {
    closer = λ cursor id near keep. ground (arith, keep, near.1);
    strictly = λ cursor id near keep.
        ground (arith, keep, near.1, eqb_ℤ_iff id cursor, eq_of_parts id cursor);
  }

  pub above-IsMeasure_catch_up :
      (since latest : ℤ) (top : ℕ)
      → IsMeasure (catch_up {Entity = Entity} since latest) (UpTo top) (above top)
  unfolding passed
  above-IsMeasure_catch_up since latest top = record {
    closer = λ cursor id near keep. ground (arith, keep, near.1);
    strictly = λ cursor id near keep.
        ground (arith, keep, near.1, eqb_ℤ_iff id cursor, eq_of_parts id cursor);
  }

  pub below-IsMeasure :
      (b : Bounds) (top : ℕ) → IsMeasure (new_to_old {Entity = Entity} b) (UpTo top) (below top)
  below-IsMeasure b top = record {
    closer = λ cursor id near keep. ground (arith, keep, near);
    strictly = λ cursor id near keep. ground (arith, keep, near);
  }

module _ {Err Entity : Type 0} (env : Env Err Entity) (top : ℕ)
    (answers : (turn : ℕ) (q : Request) → IsAnswer top (env.fetch turn q)) where
  turn_old_to_new-Continues :
      (b : Bounds) (page_size start : ℤ) (include : Bool) (st : Copy Entity)
      → Invariant env (old_to_new b) (old_to_new-IsMode b) start include st
      → Continues env
          (old_to_new b)
          (old_to_new-IsMode b)
          start
          include
          top
          (above top)
          (above-IsMeasure_old b top)
          st
          (turn_old_to_new env b page_size st)
  unfolding turn_old_to_new
  turn_old_to_new-Continues b page_size start include st inv =
      let laws = old_to_new-IsMode b in
      let near = above-IsMeasure_old b top in
      stop-Continues env (old_to_new b) laws start include top (above top) near _ st _ inv (
        limit-Continues env (old_to_new b) laws start include top (above top) near _ st _ inv (
          run_page-Continues env (old_to_new b) laws start include top (above top) near st _ inv
            (answers _ _)))

  start_old_to_new_positive :
      (b : Bounds) (cursor : ℤ)
      → leb_ℤ (start_old_to_new {Entity = Entity} b cursor).cursor (pos 0) ≡ false
  unfolding start_old_to_new
  start_old_to_new_positive b cursor = ground arith

  start_old_to_new_fresh :
      (b : Bounds) (cursor : ℤ)
      → ((start_old_to_new {Entity = Entity} b cursor).taken ≡ [])
        × ((start_old_to_new {Entity = Entity} b cursor).processed ≡ 0)
  unfolding start_old_to_new
  start_old_to_new_fresh b cursor = ground arith

  -- The copy from old to new returns, whatever the other parts do, if every answer holds positive IDs
  -- that differ and are at most `top`, and the loop has more turns than `top` + 1. The messages that
  -- it has then recorded are counted, stand in the order of their IDs, so that none is there twice,
  -- and are within the bounds and after the cursor at which the copy started, or at that cursor where
  -- the copy began with the first message.
  pub clone_history_old_to_new-Returns :
      (b : Bounds) (page_size cursor : ℤ) (fuel : ℕ)
      → top + 1 < fuel
      → Returns
          (λ e st. IsCopyFrom (old_to_new b) (start_old_to_new b cursor) st)
          (clone_history_old_to_new env b page_size cursor fuel)
  unfolding clone_history_old_to_new Continues
  clone_history_old_to_new-Returns b page_size cursor fuel enough =
      let first = start_old_to_new {Entity = Entity} b cursor in
      let (empty, none_yet) = start_old_to_new_fresh b cursor in
      run_turns-Returns (turn_old_to_new env b page_size)
        (left_to_do env (old_to_new b) (old_to_new-IsMode b) first.cursor first.include_once top
          (above top) (above-IsMeasure_old b top))
        (Invariant env (old_to_new b) (old_to_new-IsMode b) first.cursor first.include_once) _
        (turn_old_to_new-Continues b page_size first.cursor first.include_once) fuel first
        (ground (arith, start_old_to_new_positive b cursor))
        (rw (empty, none_yet) ((tt, tt, tt, refl), (refl, (λ e. refl), (λ e. refl))))
