-- ===== src/History/Loops.antt =====
-- The turns of the three copies, each of which asks for a page, and their loops.
use tgvive.History.Data.{Env, Copy, Step, Mode, done, next, max_only, note, persisted}
use tgvive.Prelude.{
  Option, Bool, false, List, ℕ, suc, some, ◌||◌, if◌then◌else◌, [], ◌&&◌, ltb, zero, none, ◌∷◌,
  length, sort_slice,
}
use tgvive.History.{Bounds}
use tgvive.Prelude.Int.{ℤ, ltb_ℤ, pos, leb_ℤ}
use tgvive.Prelude.Results.{Result, err, ok}
use tgvive.Filter.{Msg}
use tgvive.History.Modes.{
  limit_of, catch_up_limit, start_old_to_new, start_new_to_old, page_max, catch_up, fresh_copy,
  old_to_new, new_to_old, catch_up_request, since_of, old_to_new_request, new_to_old_request,
  start_catch_up,
}
use tgvive.History.Turns.{handle_page}

module _ {Err Entity : Type 0} (env : Env Err Entity) where
  -- The tests at the head of a turn: an error or the end, or nothing.
  unfoldable pub stop_of : Bool → ℕ → Option (Option Err)
  stop_of finished turn = elim (env.ctx_err turn) [
    | some e ↦ some (some e)
    | none ↦
        if finished
        then some none
        else elim (env.wait_quota turn 0) [ some e ↦ some (some e) | none ↦ none ]
  ]

  unfoldable pub begin_page : Copy Entity → Copy Entity
  begin_page st = record st { include_once = false; advanced = false; turn = suc st.turn }

  -- After a page: the function returns if no message of it was taken.
  unfoldable pub finish_page : Step Err Entity → Step Err Entity
  finish_page (done e st) = done e st
  finish_page (next rest st) = if st.advanced then next [] st else done none st

  -- The answer to a request, and the page that it gives in the order of the copy.
  unfoldable pub run_page :
      Mode Entity → Bool → Copy Entity → Result Err (List (Msg Entity)) → Step Err Entity
  run_page mode allow_equal st (err e) = done (some e) st
  run_page mode allow_equal st (ok []) = done none st
  run_page mode allow_equal st (ok (msg ∷ msgs)) = finish_page (
      handle_page env mode allow_equal (length (msg ∷ msgs)) (sort_slice mode.less (msg ∷ msgs))
        (begin_page st))

  unfoldable pub is_full : Bounds → Copy Entity → Bool
  is_full b st = ltb_ℤ (pos 0) b.max_messages && leb_ℤ b.max_messages (pos st.processed)

  unfoldable pub turn_old_to_new : Bounds → ℤ → Copy Entity → Step Err Entity
  turn_old_to_new b page_size st =
      let limit = limit_of b page_size st.processed in
      let finished = is_full b st || (ltb_ℤ (pos 0) b.max_id && leb_ℤ b.max_id st.cursor) in
      elim (stop_of finished st.turn) [
        | some e ↦ done e st
        | none ↦
            if leb_ℤ limit (pos 0)
            then done none st
            else run_page (old_to_new b) st.include_once st
                (env.fetch st.turn (old_to_new_request b limit st.include_once st.cursor))
      ]

  -- The greatest ID of the page is persisted before its messages are sent.
  unfoldable pub see_page : Copy Entity → List (Msg Entity) → Result Err (Copy Entity)
  see_page st msgs =
      if ltb_ℤ st.max_seen (page_max msgs)
      then elim (env.persist st.turn (max_only (page_max msgs))) [
        | some e ↦ err e
        | none ↦
            ok
              (note (persisted (max_only (page_max msgs))) (record st { max_seen = page_max msgs }))
      ]
      else ok st

  unfoldable pub run_seen :
      Mode Entity → Copy Entity → List (Msg Entity) → Result Err (Copy Entity) → Step Err Entity
  run_seen mode st msgs (err e) = done (some e) st
  run_seen mode st msgs (ok seen) = run_page mode false seen (ok msgs)

  unfoldable pub run_page_down :
      Mode Entity → Copy Entity → Result Err (List (Msg Entity)) → Step Err Entity
  run_page_down mode st (err e) = done (some e) st
  run_page_down mode st (ok []) = done none st
  run_page_down mode st (ok (msg ∷ msgs)) = run_seen mode st (msg ∷ msgs) (see_page st (msg ∷ msgs))

  unfoldable pub turn_new_to_old : Bounds → ℤ → Copy Entity → Step Err Entity
  turn_new_to_old b page_size st =
      let limit = limit_of b page_size st.processed in
      let finished = is_full b st || (ltb_ℤ (pos 0) b.min_id && leb_ℤ st.cursor b.min_id) in
      elim (stop_of finished st.turn) [
        | some e ↦ done e st
        | none ↦
            if leb_ℤ limit (pos 0)
            then done none st
            else run_page_down (new_to_old b) st
                (env.fetch st.turn (new_to_old_request b limit st.cursor))
      ]

  -- A catch-up also stops after ten thousand messages.
  unfoldable pub stop_long : Step Err Entity → Step Err Entity
  stop_long (done e st) = done e st
  stop_long (next rest st) = if ltb 10000 st.processed then done none st else next rest st

  unfoldable pub turn_catch_up : ℤ → ℤ → ℤ → Copy Entity → Step Err Entity
  turn_catch_up since latest page_size st =
      let limit = catch_up_limit page_size in
      elim (stop_of (leb_ℤ latest st.cursor) st.turn) [
        | some e ↦ done e st
        | none ↦ stop_long (
            run_page (catch_up since latest) st.include_once st
              (env.fetch st.turn (catch_up_request latest limit st.include_once st.cursor)))
      ]

pub data Finished (Err Entity : Type 0) : Type 0 where
  finished : Option Err → Copy Entity → Finished Err Entity
  out_of_fuel : Copy Entity → Finished Err Entity

module _ {Err Entity : Type 0} where
  -- A loop of turns, on fuel.
  unfoldable pub run_turns : (Copy Entity → Step Err Entity) → ℕ → Copy Entity → Finished Err Entity
  run_turns turn zero st = out_of_fuel st
  run_turns turn (suc fuel) st = elim (turn st) [
    | done e st' ↦ finished e st'
    | next rest st' ↦ run_turns turn fuel st'
  ]

  unfoldable pub clone_history_old_to_new :
      Env Err Entity → Bounds → ℤ → ℤ → ℕ → Finished Err Entity
  clone_history_old_to_new env b page_size cursor fuel =
      run_turns (turn_old_to_new env b page_size) fuel (start_old_to_new b cursor)

  unfoldable pub clone_history_new_to_old :
      Env Err Entity → Bounds → ℤ → ℤ → ℤ → ℕ → Finished Err Entity
  clone_history_new_to_old env b page_size cursor max_seen fuel =
      run_turns (turn_new_to_old env b page_size) fuel (start_new_to_old b cursor max_seen)

  unfoldable pub catch_up_new_messages :
      Env Err Entity → Result Err ℤ → ℤ → ℤ → ℕ → Finished Err Entity
  catch_up_new_messages env (err e) baseline page_size fuel =
      finished (some e) (fresh_copy (pos 0) false (pos 0))
  catch_up_new_messages env (ok latest) baseline page_size fuel =
      let since = since_of baseline latest in
      if leb_ℤ latest (pos 0) || leb_ℤ latest since
      then finished none (fresh_copy since false (pos 0))
      else run_turns (turn_catch_up env since latest page_size) fuel (start_catch_up since)
