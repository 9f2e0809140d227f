-- ===== src/Realtime/Dispatch.antt =====
-- internal/engine/monitor.go, dispatchMessageToRuntimeTask: how a message that came, by an update or
-- by a poll, gets into the queue of a task. It marks the message in the cache of seen messages, sees to
-- the album's waiter, and adds the message to the album: three steps, since each takes another lock. `dispatch` is these steps with nothing
-- between them; Realtime/Happenings has them one by one.
use tgvive.Prelude.{
  ℕ, List, Bool, Option, ◌||◌, not, ◌&&◌, if◌then◌else◌, ◌∷◌, false, none, eqb, some, true, [],
}
use tgvive.Realtime.{
  RuntimeTask, ensure_album_waiter, enqueue, single, deliver_album, order_new_to_old,
}
use tgvive.Prelude.Int.{ℤ, eqb_ℤ, leb_ℤ, pos, ltb_ℤ}
use tgvive.Filter.{Msg}
use tgvive.Dedup.{Deduper, seen, forget}
use tgvive.Text.{text_same, trim_space, text}
use tgvive.Grouper.{AlbumGrouper, add, fire, album_key}

-- What the handling of a message changes: the task, the seen messages and the albums. `none` is a
-- part that the manager does not have. `adding` are the messages whose dispatch has seen to the waiter
-- and has still to add them to the album. The albums of the task's ID are those of this run: StartTask
-- drops the albums of a run before it.
pub record World (Entity : Type 0) : Type 0 where
  pub rt : RuntimeTask Entity
  pub dedup : Option Deduper
  pub grouper : Option (AlbumGrouper (Msg Entity))
  pub adding : List (Msg Entity)

-- What the call is answered besides: the clock, whether the run is the active one, and the choice of
-- a `select` with two ready cases.
pub record Arrival : Type 0 where
  pub now : ℤ
  pub is_active : Bool
  pub pick : Bool
  pub from_pull : Bool

-- After the first two steps: the message is refused, it is in the queue, or it goes to its album.
pub data Admitted : Type 0 where
  refused queued grouping : Admitted

unfoldable pub see_in : Arrival → ℕ → ℤ → Option Deduper → Option Deduper × Bool
see_in call task_id msg_id none = (none, false)
see_in call task_id msg_id (some d) =
    let (d', known) = seen call.now task_id msg_id d in (some d', known)

unfoldable pub unsee_in : ℕ → ℤ → Option Deduper → Option Deduper
unsee_in task_id msg_id none = none
unsee_in task_id msg_id (some d) = some (forget task_id msg_id d)

module _ {Entity : Type 0} where
  unfoldable pub has_target : RuntimeTask Entity → Bool
  has_target t = t.has_target_peer || text_same (trim_space t.publish_type) (text "bot")

  -- What the history has copied already.
  unfoldable pub is_behind : Msg Entity → RuntimeTask Entity → Bool
  is_behind msg t =
      not (eqb_ℤ t.history_order order_new_to_old)
      && ltb_ℤ (pos 0) t.history_cursor
      && leb_ℤ msg.id t.history_cursor

  -- The tests before the first step.
  unfoldable pub accepts : Arrival → Msg Entity → RuntimeTask Entity → Bool
  accepts call msg t =
      has_target t
      && not (eqb t.task_id 0 || leb_ℤ msg.id (pos 0))
      && not t.ctx_over
      && not t.is_done
      && call.is_active
      && not (is_behind msg t)

  unfoldable pub see : Arrival → Msg Entity → World Entity → World Entity × Bool
  see call msg w =
      let (dedup, known) = see_in call w.rt.task_id msg.id w.dedup in
      (record w { dedup = dedup }, known)

  unfoldable pub unsee : Msg Entity → World Entity → World Entity
  unsee msg w = record w { dedup = unsee_in w.rt.task_id msg.id w.dedup }

  unfoldable pub has_grouper : World Entity → Bool
  has_grouper w = elim w.grouper [ none ↦ false | some g ↦ true ]

  unfoldable pub in_album : Msg Entity → World Entity → Bool
  in_album msg w = not (eqb_ℤ msg.grouped_id (pos 0)) && msg.has_media && has_grouper w

  unfoldable pub after_waiter : Msg Entity → World Entity → Option ℕ → World Entity × Admitted
  after_waiter msg w none = (unsee msg w, refused)
  after_waiter msg w (some ch) = (w, grouping)

  unfoldable pub await_album : Arrival → Msg Entity → World Entity → World Entity × Admitted
  await_album call msg w =
      let (t, ch) = ensure_album_waiter call.pick msg.grouped_id call.from_pull w.rt in
      after_waiter msg (record w { rt = t }) ch

  unfoldable pub queue_single : Arrival → Msg Entity → World Entity → World Entity × Admitted
  queue_single call msg w =
      let (t, done) = enqueue call.pick (single call.from_pull msg) w.rt in
      if done then (record w { rt = t }, queued) else (unsee msg (record w { rt = t }), refused)

  unfoldable pub admit : Arrival → Msg Entity → World Entity → World Entity × Admitted
  admit call msg w =
      let (marked, known) = see call msg w in
      if not (accepts call msg w.rt)
      then (w, refused)
      else if known
      then (marked, refused)
      else if in_album msg w
      then await_album call msg marked
      else queue_single call msg marked

  -- The batches that the grouper flushes at once.
  unfoldable pub deliver_each :
      ℤ → List (List (Msg Entity)) → RuntimeTask Entity → RuntimeTask Entity
  deliver_each grouped_id [] t = t
  deliver_each grouped_id (b ∷ bs) t = deliver_each grouped_id bs (deliver_album grouped_id b t)

  -- The third step.
  unfoldable pub add_to_album : Msg Entity → World Entity → World Entity
  add_to_album msg w = elim w.grouper [
    | none ↦ w
    | some g ↦
        (let added = add (λ (m : Msg Entity). m.id) w.rt.task_id msg.grouped_id msg g in
          record w {
            grouper = some added.grouper;
            rt = deliver_each msg.grouped_id added.flushed w.rt;
          })
  ]

  unfoldable pub finish : Msg Entity → World Entity × Admitted → World Entity × Bool
  finish msg (w, refused) = (w, false)
  finish msg (w, queued) = (w, true)
  finish msg (w, grouping) = (add_to_album msg w, true)

  unfoldable pub dispatch : Arrival → Msg Entity → World Entity → World Entity × Bool
  dispatch call msg w = finish msg (admit call msg w)

  -- The function of an album's timer, which delivers the batch to the task.
  unfoldable pub fire_timer : ℤ → ℕ → World Entity → World Entity
  fire_timer grouped_id timer_id w = elim w.grouper [
    | none ↦ w
    | some g ↦
        (let (g', batches) = fire (album_key w.rt.task_id grouped_id) timer_id g in
          record w { grouper = some g'; rt = deliver_each grouped_id batches w.rt })
  ]
