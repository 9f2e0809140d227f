-- ===== src/Realtime.antt =====
-- internal/engine/monitor.go: the task that copies the messages of a channel as they come. The queue
-- of jobs is a list; the channel on which an album's job waits for its batch is a number, and `chans`
-- is what the channels hold. A method that locks `mu`, and a send or a receive on the queue, is one
-- step. `pending` is the counter of global.Stats, which other tasks change too; it is changed after a
-- send or a receive, in a step of its own: `to_count` and `to_discount` are the calls of AddPending
-- that are still to come.
pub mod Dispatch
pub mod Replies
pub mod Waiters
pub mod Albums
pub mod Taken
pub mod Closing
pub mod Live
pub mod Happenings
pub mod Firing
pub mod Runs
pub mod Late
pub mod Counts
pub mod Poll
pub mod Spending
pub mod Budget
pub mod Jobs
pub mod Ending
pub mod Done
mod Tests
use tgvive.Prelude.{
  ℕ, List, Bool, Option, none, if◌then◌else◌, ◌∷◌, [], false, ◌||◌, true, not, suc, some, eqb, ltb,
  ◌&&◌, nat_eq, length, ◌++◌, zero,
}
use tgvive.Prelude.Int.{ℤ, pos, eqb_ℤ, ltb_ℤ, negsuc, leb_ℤ, int_eq}
use tgvive.Prelude.Map.{Map, insert, lookup, delete}
use tgvive.Filter.{Msg}
use tgvive.Text.{Text}
use tgvive.Stats.{next_pending}
use tgvive.History.Data.{Persist, cursor_and_max, max_only}

pub data Job (Entity : Type 0) : Type 0 where
  single : Bool → Msg Entity → Job Entity
  album : Bool → ℤ → ℕ → Job Entity

-- A channel with room for one batch.
pub record AlbumChan (Entity : Type 0) : Type 0 where
  pub batch : Option (List (Msg Entity))
  pub closed : Bool

pub record RuntimeTask (Entity : Type 0) : Type 0 where
  pub task_id : ℕ
  pub run_id : ℕ
  pub has_target_peer : Bool
  pub publish_type : Text
  pub keep_reply : Bool
  pub ctx_over : Bool
  pub is_done : Bool
  pub queue : List (Job Entity)
  pub album_wait : Map ℤ ℕ
  pub chans : Map ℕ (AlbumChan Entity)
  pub next_chan : ℕ
  pub history_order : ℤ
  pub history_cursor : ℤ
  pub history_max_id : ℤ
  pub pending : ℕ
  pub to_count : ℕ
  pub to_discount : ℕ

abbrev pub queue_size : ℕ
queue_size = 512

-- model.HistoryOrderNewToOld
abbrev pub order_new_to_old : ℤ
order_new_to_old = pos 2

module _ {Entity : Type 0} where
  abbrev pub new_chan : AlbumChan Entity
  new_chan = record { batch = none; closed = false }

  -- `pick` is Go's choice where the task is stopped and the queue has room: both cases of the
  -- `select` are ready then.
  unfoldable pub enqueue : Bool → Job Entity → RuntimeTask Entity → RuntimeTask Entity × Bool
  enqueue pick job t =
      if t.ctx_over || not (ltb (length t.queue) queue_size) || (t.is_done && not pick)
      then (t, false)
      else (record t { queue = t.queue ++ job ∷ []; to_count = suc t.to_count }, true)

  -- The calls of AddPending, after a send and after a receive.
  unfoldable pub count_job : RuntimeTask Entity → RuntimeTask Entity
  count_job t = elim t.to_count [
    | zero ↦ t
    | suc n ↦ record t { to_count = n; pending = next_pending (pos 1) t.pending }
  ]

  unfoldable pub discount_job : RuntimeTask Entity → RuntimeTask Entity
  discount_job t = elim t.to_discount [
    | zero ↦ t
    | suc n ↦ record t { to_discount = n; pending = next_pending (negsuc 0) t.pending }
  ]

  -- The end of ensureAlbumWaiter, with what `enqueue` has made of the job.
  unfoldable pub add_waiter : ℤ → ℕ → RuntimeTask Entity × Bool → RuntimeTask Entity × Option ℕ
  add_waiter grouped_id ch (t, false) = (t, none)
  add_waiter grouped_id ch (t, true) = (
    record t {
      album_wait = insert grouped_id ch t.album_wait;
      chans = insert ch new_chan t.chans;
      next_chan = suc ch;
    },
    some ch,
  )

  unfoldable pub ensure_album_waiter :
      Bool → ℤ → Bool → RuntimeTask Entity → RuntimeTask Entity × Option ℕ
  ensure_album_waiter pick grouped_id from_pull t =
      if eqb_ℤ grouped_id (pos 0) then (t, none) else elim (lookup grouped_id t.album_wait) [
        | some ch ↦ (t, some ch)
        | none ↦
            add_waiter grouped_id t.next_chan
              (enqueue pick (album from_pull grouped_id t.next_chan) t)
      ]

  -- A send that does not wait, if there is a batch, and the closing of the channel.
  unfoldable pub close_with : Option (List (Msg Entity)) → AlbumChan Entity → AlbumChan Entity
  close_with sent c = record {
    batch = elim c.batch [ none ↦ sent | some held ↦ some held ];
    closed = true;
  }

  unfoldable pub close_album :
      Option (List (Msg Entity)) → ℕ → Map ℕ (AlbumChan Entity) → Map ℕ (AlbumChan Entity)
  close_album sent ch chans = elim (lookup ch chans) [
    | none ↦ chans
    | some c ↦ insert ch (close_with sent c) chans
  ]

  unfoldable pub deliver_album : ℤ → List (Msg Entity) → RuntimeTask Entity → RuntimeTask Entity
  deliver_album grouped_id batch t = elim (lookup grouped_id t.album_wait) [
    | none ↦ t
    | some ch ↦ record t {
      album_wait = delete grouped_id t.album_wait;
      chans = close_album (some batch) ch t.chans;
    }
  ]

  unfoldable pub close_all : Map ℤ ℕ → Map ℕ (AlbumChan Entity) → Map ℕ (AlbumChan Entity)
  close_all [] chans = chans
  close_all ((grouped_id, ch) ∷ rest) chans = close_all rest (close_album none ch chans)

  unfoldable pub stop_runtime : RuntimeTask Entity → RuntimeTask Entity
  stop_runtime t =
      if t.is_done
      then t
      else record t { is_done = true; album_wait = []; chans = close_all t.album_wait t.chans }

  unfoldable pub drain_pending : List (Job Entity) → ℕ → ℕ
  drain_pending [] pending = pending
  drain_pending (job ∷ rest) pending = drain_pending rest (next_pending (negsuc 0) pending)

  -- Each receive is followed by its call of AddPending.
  unfoldable pub drain_queue_on_stop : RuntimeTask Entity → RuntimeTask Entity
  drain_queue_on_stop t = record t { queue = []; pending = drain_pending t.queue t.pending }

  -- The receive of a job in the loop of `run`.
  unfoldable pub take_job : RuntimeTask Entity → RuntimeTask Entity × Option (Job Entity)
  take_job t = elim t.queue [
    | [] ↦ (t, none)
    | job ∷ rest ↦ (record t { queue = rest; to_discount = suc t.to_discount }, some job)
  ]

  unfoldable pub latest_processed_id : RuntimeTask Entity → ℤ
  latest_processed_id t =
      if ltb_ℤ t.history_cursor t.history_max_id then t.history_max_id else t.history_cursor

  -- What is written to the database.
  unfoldable pub place_to_persist : ℤ → RuntimeTask Entity → Option Persist
  place_to_persist cursor t =
      if not (eqb_ℤ t.history_order order_new_to_old) && ltb_ℤ t.history_cursor cursor
      then some (cursor_and_max cursor)
      else if ltb_ℤ t.history_max_id cursor
      then some (max_only cursor)
      else none

  unfoldable pub advance_cursor : ℤ → RuntimeTask Entity → RuntimeTask Entity × Option Persist
  advance_cursor cursor t = if eqb t.task_id 0 || leb_ℤ cursor (pos 0) then (t, none) else (
    record t {
      history_max_id = if ltb_ℤ t.history_max_id cursor then cursor else t.history_max_id;
      history_cursor =
          if not (eqb_ℤ t.history_order order_new_to_old) && ltb_ℤ t.history_cursor cursor
          then cursor
          else t.history_cursor;
    },
    place_to_persist cursor t,
  )
