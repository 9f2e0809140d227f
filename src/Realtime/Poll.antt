-- ===== src/Realtime/Poll.antt =====
-- internal/engine/monitor.go, pollOnce: the search for messages that no update has announced. It asks
-- for pages of messages behind the last one that was copied, and dispatches what it finds, within a
-- budget of units. `meanwhile` is what happens to the task from one message to the next.
use tgvive.Prelude.{
  ℕ, List, Bool, if◌then◌else◌, ◌∷◌, false, suc, [], ◌&&◌, ◌+◌, not, eqb, ◌||◌, true, ltb, ◌++◌,
  sort_slice, zero,
}
use tgvive.Filter.{Media, Msg, older}
use tgvive.Realtime.Dispatch.{World, dispatch, in_album, Arrival}
use tgvive.Prelude.Int.{ℤ, pos, eqb_ℤ, leb_ℤ, ltb_ℤ, pos_part}
use tgvive.Realtime.Happenings.{happen_all, Happening}
use tgvive.Scheduler.Engine.{Tasks, peek_pull}
use tgvive.History.Data.{Request}
use tgvive.Realtime.{latest_processed_id, advance_cursor}
use tgvive.Clock.{Time}
use tgvive.Prelude.Int64.{◌-i◌, ◌+i◌}
use tgvive.Prelude.Results.{Result, err, ok}

pub record PollEnv (Err Entity : Type 0) : Type 0 where
  pub media : Media Entity
  pub is_active : Bool
  pub is_paused : Bool
  pub now : Time
  pub remote_latest : Result Err ℤ
  pub fetch : ℕ → Request → Result Err (List (Msg Entity))
  pub meanwhile : ℕ → List (Happening Entity)
  pub call : ℕ → Arrival

-- `turn` counts the messages and the pages. `found` are the messages that were dispatched.
pub record Poll (Entity : Type 0) : Type 0 where
  pub world : World Entity
  pub units : ℕ
  pub seen_albums : List ℤ
  pub page_max : ℤ
  pub advanced : Bool
  pub turn : ℕ
  pub found : List (Msg Entity)

abbrev pub poll_iterations : ℕ
poll_iterations = 20

abbrev pub poll_page_size : ℤ
poll_page_size = pos 50

unfoldable pub has_album_id : ℤ → List ℤ → Bool
has_album_id gid [] = false
has_album_id gid (g ∷ gs) = eqb_ℤ g gid || has_album_id gid gs

-- maxCatchUpUnits, where the scheduler limits the task: what it has left, and 500 at most.
unfoldable pub catch_up_units : ℤ → ℕ
catch_up_units remaining =
    if leb_ℤ (pos 0) remaining && ltb_ℤ remaining (pos 500) then pos_part remaining else 500

unfoldable pub raise_page_max : ℤ → ℤ → ℤ
raise_page_max id page_max = if ltb_ℤ page_max id then id else page_max

module _ {Err Entity : Type 0} (env : PollEnv Err Entity) where
  unfoldable pub is_reply_free : Msg Entity → World Entity → Bool
  is_reply_free msg w = w.rt.keep_reply && env.media.is_reply msg

  -- unitCost: the messages of an album cost one together, and a reply that is kept costs nothing.
  unfoldable pub unit_cost : Msg Entity → Poll Entity → ℕ
  unit_cost msg st =
      if in_album msg st.world && has_album_id msg.grouped_id st.seen_albums
      then 0
      else if is_reply_free msg st.world
      then 0
      else 1

  unfoldable pub albums_with : Msg Entity → Poll Entity → List ℤ
  albums_with msg st =
      if in_album msg st.world && not (has_album_id msg.grouped_id st.seen_albums)
      then msg.grouped_id ∷ st.seen_albums
      else st.seen_albums

  -- The dispatch of a message that fits the budget.
  unfoldable pub poll_dispatch : Msg Entity → Poll Entity → Poll Entity
  poll_dispatch msg st =
      let (w, dispatched) = dispatch (env.call st.turn) msg st.world in
      let counted = record st { world = w; seen_albums = albums_with msg st; turn = suc st.turn } in
      if dispatched
      then record counted {
        units = st.units + unit_cost msg st;
        advanced = true;
        page_max = raise_page_max msg.id st.page_max;
        found = st.found ++ msg ∷ [];
      }
      else counted

  unfoldable pub poll_catch_up : Poll Entity → Poll Entity
  poll_catch_up st = record st { world = happen_all (env.meanwhile st.turn) st.world }

  -- The loop over a page; `none` is a `break`, behind which the state stays.
  unfoldable pub poll_message : ℤ → ℤ → ℤ → Msg Entity → Poll Entity → Poll Entity × Bool
  poll_message remaining after_id remote msg before =
      let st = poll_catch_up before in
      let cur = latest_processed_id st.world.rt in
      if leb_ℤ msg.id (pos 0) || leb_ℤ msg.id after_id || ltb_ℤ remote msg.id
      then (record st { turn = suc st.turn }, true)
      else if ltb_ℤ (pos 0) cur && leb_ℤ msg.id cur
      then (record st { page_max = raise_page_max msg.id st.page_max; turn = suc st.turn }, true)
      else if leb_ℤ (pos 0) remaining
          && ltb (catch_up_units remaining) (st.units + unit_cost msg st)
      then (record st { seen_albums = albums_with msg st }, false)
      else (poll_dispatch msg st, true)

  unfoldable pub poll_page : ℤ → ℤ → ℤ → List (Msg Entity) → Poll Entity → Poll Entity
  poll_page remaining after_id remote [] st = st
  poll_page remaining after_id remote (msg ∷ rest) st =
      let (st', goes_on) = poll_message remaining after_id remote msg st in
      let later = poll_page remaining after_id remote rest st' in if goes_on then later else st'

  unfoldable pub poll_request : ℤ → ℤ → Request
  poll_request after_id remote = record {
    offset_id = after_id;
    add_offset = pos 0 -i poll_page_size;
    limit = poll_page_size;
    min_id = after_id;
    max_id = remote +i pos 1;
  }

  unfoldable pub begin_poll_page : ℤ → Poll Entity → Poll Entity
  begin_poll_page after_id st = record st {
    page_max = after_id;
    advanced = false;
    turn = suc st.turn;
  }

  -- What is done with an answer; `later` are the pages behind an ID.
  unfoldable pub poll_answer :
      (ℤ → Poll Entity → Poll Entity)
      → ℤ
      → ℤ
      → ℤ
      → Poll Entity
      → Result Err (List (Msg Entity))
      → Poll Entity
  poll_answer later remaining after_id remote st (err e) = st
  poll_answer later remaining after_id remote st (ok []) = st
  poll_answer later remaining after_id remote st (ok (msg ∷ rest)) =
      let st' =
        poll_page remaining after_id remote (sort_slice older (msg ∷ rest))
          (begin_poll_page after_id st) in
      if not st'.advanced || leb_ℤ st'.page_max after_id then st' else later st'.page_max st'

  -- The pages, of which the code asks for `poll_iterations` at most.
  unfoldable pub poll_pages : ℕ → ℤ → ℤ → ℤ → Poll Entity → Poll Entity
  poll_pages zero remaining after_id remote st = st
  poll_pages (suc n) remaining after_id remote st =
      let answered =
        poll_answer (λ id st'. poll_pages n remaining id remote st') remaining after_id remote st
          (env.fetch st.turn (poll_request after_id remote)) in
      if ltb_ℤ after_id remote && ltb st.units (catch_up_units remaining) then answered else st

  unfoldable pub start_poll : World Entity → Poll Entity
  start_poll w = record {
    world = w;
    units = 0;
    seen_albums = [];
    page_max = latest_processed_id w.rt;
    advanced = false;
    turn = 0;
    found = [];
  }

  -- From the number of the last message on.
  unfoldable pub poll_from : ℤ → ℤ → World Entity → Poll Entity
  poll_from remaining remote w =
      let local_last = latest_processed_id w.rt in
      if leb_ℤ local_last (pos 0)
      then start_poll (record w { rt = (advance_cursor remote w.rt).0 })
      else if leb_ℤ remote local_last || eqb_ℤ remaining (pos 0)
      then start_poll w
      else poll_pages poll_iterations remaining local_last remote (start_poll w)

  -- The whole function, with the states of the scheduler.
  unfoldable pub poll_once : Tasks → World Entity → Tasks × Poll Entity
  poll_once tasks w =
      let (tasks', allowed, remaining, next, reset) = peek_pull env.now w.rt.task_id tasks in
      if eqb w.rt.task_id 0 || w.rt.is_done || w.rt.ctx_over || not env.is_active || env.is_paused
      then (tasks, start_poll w)
      else if not allowed
      then (tasks', start_poll w)
      else elim env.remote_latest [
        | err e ↦ (tasks', start_poll w)
        | ok remote ↦
            if leb_ℤ remote (pos 0)
            then (tasks', start_poll w)
            else (tasks', poll_from remaining remote w)
      ]
