-- ===== src/Realtime/Happenings.antt =====
-- internal/engine/monitor.go, internal/engine/dispatcher.go: what may happen to a realtime task, one
-- step after another in any order. The steps of a dispatch stand alone, so that those of several
-- dispatches may be mixed, and are taken whatever the tests before them have answered, which may be
-- out of date by then. A drain of the queue is receives and calls of AddPending.
use tgvive.Prelude.{
  ℕ, List, ◌∷◌, [], true, nat_eq, Option, Bool, if◌then◌else◌, none, some, not, suc, eqb, ◌&&◌,
  zero,
}
use tgvive.Realtime.Dispatch.{Arrival, World, fire_timer, see, unsee, add_to_album, in_album}
use tgvive.Realtime.{
  RuntimeTask, take_job, advance_cursor, stop_runtime, ensure_album_waiter, enqueue, single,
  count_job, discount_job,
}
use tgvive.Prelude.Int.{ℤ, int_eq}
use tgvive.Filter.{Msg}
use tgvive.Grouper

-- What may happen: a message is marked as seen, or the mark is undone; a single message is queued; a
-- waiter is made for the album of a message, or found; a message is added to its album; the timer of
-- an album fires; the loop of `run` takes a job; a call of AddPending is made; a copy moves the cursor;
-- the task is stopped, or its context ends; DropTask drops its albums.
pub data Happening (Entity : Type 0) : Type 0 where
  sees : Arrival → Msg Entity → Happening Entity
  forgets : Msg Entity → Happening Entity
  queues : Arrival → Msg Entity → Happening Entity
  awaits : Arrival → Msg Entity → Happening Entity
  adds : ℕ → Happening Entity
  fires : ℤ → ℕ → Happening Entity
  takes : Happening Entity
  counts : Happening Entity
  discounts : Happening Entity
  advances : ℤ → Happening Entity
  stops : Happening Entity
  cancels : Happening Entity
  drops : Happening Entity

-- The element at an index, and the others.
unfoldable pub pick_out : {A : Type 0} → ℕ → List A → Option (A × List A)
pick_out n [] = none
pick_out zero (x ∷ xs) = some (x, xs)
pick_out (suc n) (x ∷ xs) = elim (pick_out n xs) [ none ↦ none | some (y, ys) ↦ some (y, x ∷ ys) ]

module _ {Entity : Type 0} where
  abbrev on_task : (RuntimeTask Entity → RuntimeTask Entity) → World Entity → World Entity
  on_task f w = record w { rt = f w.rt }

  -- The tests of a dispatch for an album that no step changes.
  unfoldable pub goes_to_album : Msg Entity → World Entity → Bool
  goes_to_album msg w = not (eqb w.rt.task_id 0) && in_album msg w

  unfoldable pub begin_adding :
      Msg Entity → World Entity → RuntimeTask Entity × Option ℕ → World Entity
  begin_adding msg w (t, none) = record w { rt = t }
  begin_adding msg w (t, some ch) = record w { rt = t; adding = msg ∷ w.adding }

  unfoldable pub await_step : Arrival → Msg Entity → World Entity → World Entity
  await_step call msg w =
      if goes_to_album msg w
      then begin_adding msg w (ensure_album_waiter call.pick msg.grouped_id call.from_pull w.rt)
      else w

  unfoldable pub add_picked : Option (Msg Entity × List (Msg Entity)) → World Entity → World Entity
  add_picked none w = w
  add_picked (some (msg, rest)) w =
      if goes_to_album msg w then add_to_album msg (record w { adding = rest }) else w

  unfoldable pub drop_albums : World Entity → World Entity
  drop_albums w = elim w.grouper [
    | none ↦ w
    | some g ↦ record w { grouper = some (Grouper.drop_task w.rt.task_id g) }
  ]

  unfoldable pub happen : Happening Entity → World Entity → World Entity
  happen (sees call msg) w = (see call msg w).0
  happen (forgets msg) w = unsee msg w
  happen (queues call msg) w = on_task (λ t. (enqueue call.pick (single call.from_pull msg) t).0) w
  happen (awaits call msg) w = await_step call msg w
  happen (adds n) w = add_picked (pick_out n w.adding) w
  happen (fires gid timer_id) w = fire_timer gid timer_id w
  happen takes w = on_task (λ t. (take_job t).0) w
  happen counts w = on_task count_job w
  happen discounts w = on_task discount_job w
  happen (advances cursor) w = on_task (λ t. (advance_cursor cursor t).0) w
  happen stops w = on_task stop_runtime w
  happen cancels w = on_task (λ t. record t { ctx_over = true }) w
  happen drops w = drop_albums w

  unfoldable pub happen_all : List (Happening Entity) → World Entity → World Entity
  happen_all [] w = w
  happen_all (h ∷ hs) w = happen_all hs (happen h w)
