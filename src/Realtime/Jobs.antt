-- ===== src/Realtime/Jobs.antt =====
-- internal/engine/monitor.go, the loop of `run`: what is done with a job that was taken from the queue.
-- What the other parts answer is a function of the turn. A loop that waits for the scheduler is given
-- the clock's readings at its rounds; behind the last one the task's context ends. The quota's wait and
-- a failure to persist its count are answers too; the copy of a message's comments is left out.
use tgvive.Filter
use tgvive.Prelude.{
  ℕ, List, ◌++◌, Bool, Option, if◌then◌else◌, ◌∷◌, suc, eqb, not, some, none, false, [], true, ◌||◌,
  nat_eq, ◌+◌, length,
}
use tgvive.Filter.{Media, Msg, MediaGroupPlan, Rules}
use tgvive.Realtime.{
  RuntimeTask, Job, advance_cursor, AlbumChan, single, album, drain_queue_on_stop,
}
use tgvive.Prelude.Int.{ℤ, leb_ℤ, pos, ltb_ℤ}
use tgvive.Clock.{Time}
use tgvive.Prelude.Map.{Map, lookup}
use tgvive.History.Data.{Persist, carrier_of, with_carrier}
use tgvive.Scheduler.Engine.{Tasks, reserve_pull, peek_window, commit_pull, release_pull}

-- A send ends with `none`, or with the error that processWithRetry gives up on.
pub record JobEnv (Err Entity : Type 0) : Type 0 where
  pub media : Media Entity
  pub rules : ℕ → Rules
  pub has_keywords : Bool
  pub keyword : Msg Entity → Msg Entity × Bool
  pub wait_quota : ℕ → ℕ → Option Err
  pub clock : ℕ → List Time
  pub send : ℕ → Msg Entity → Option Err
  pub send_album : ℕ → List (Msg Entity) → Option Err

-- What a job does besides: the counters of the program, those of the task (how many messages were
-- handled, sent and missed), the quota and the database.
pub data JobEffect (Entity : Type 0) : Type 0 where
  filtered failed succeeded charged : ℕ → JobEffect Entity
  recorded : List (Msg Entity) → ℕ → ℕ → ℕ → JobEffect Entity
  persisted : Persist → JobEffect Entity

pub record Work (Entity : Type 0) : Type 0 where
  pub rt : RuntimeTask Entity
  pub tasks : Tasks
  pub turn : ℕ
  pub effects : List (JobEffect Entity)

-- The loop goes on, or it drains the queue and returns.
pub data Handled (Entity : Type 0) : Type 0 where
  goes_on : Work Entity → Handled Entity
  ends : Work Entity → Handled Entity

-- The closure reserveSchedule: rounds until tokens are granted.
unfoldable pub reserve_rounds : ℕ → ℤ → List Time → Tasks → Tasks × Option ℤ
reserve_rounds task need [] tasks = (tasks, none)
reserve_rounds task need (now ∷ later) tasks =
    let (tasks', granted, next, reset) = reserve_pull now task need tasks in
    let rest = reserve_rounds task need later tasks' in
    if ltb_ℤ (pos 0) granted then (tasks', some granted) else rest

-- The closure waitScheduleWindow.
unfoldable pub window_rounds : ℕ → List Time → Tasks → Bool
window_rounds task [] tasks = false
window_rounds task (now ∷ later) tasks =
    (peek_window now task tasks).0 || window_rounds task later tasks

unfoldable pub at_least_one_of : ℕ → ℕ
at_least_one_of n = if eqb n 0 then 1 else n

module _ {Entity : Type 0} where
  unfoldable pub add_effect : JobEffect Entity → Work Entity → Work Entity
  add_effect e st = record st { effects = st.effects ++ e ∷ [] }

  unfoldable pub add_effect_if : Bool → JobEffect Entity → Work Entity → Work Entity
  add_effect_if b e st = if b then add_effect e st else st

  unfoldable pub persist_effect : Option Persist → Work Entity → Work Entity
  persist_effect none st = st
  persist_effect (some place) st = add_effect (persisted place) st

  unfoldable pub advance_work : ℤ → Work Entity → Work Entity
  advance_work cursor st =
      let (t, place) = advance_cursor cursor st.rt in persist_effect place (record st { rt = t })

  -- The end of a job: recordTaskCounters, the cursor, the turn.
  unfoldable pub finish_job : List (Msg Entity) → ℕ → ℕ → ℕ → ℤ → Work Entity → Handled Entity
  finish_job batch handled sent missed cursor st =
      let done = advance_work cursor (add_effect (recorded batch handled sent missed) st) in
      goes_on (record done { turn = suc st.turn })

  -- CommitPull after a send, ReleasePull after a failure, if tokens are reserved.
  unfoldable pub settle_tokens : Bool → ℕ → ℤ → Work Entity → Work Entity
  settle_tokens is_sent units reserved st =
      if leb_ℤ reserved (pos 0)
      then st
      else if is_sent
      then record st { tasks = (commit_pull st.rt.task_id (pos units) st.tasks).0 }
      else record st { tasks = release_pull st.rt.task_id reserved st.tasks }

  -- What follows a send of `need` messages from a batch of which `handled` are done.
  unfoldable pub after_job :
      {Err : Type 0}
      → Option Err
      → ℕ
      → ℕ
      → ℕ
      → ℤ
      → List (Msg Entity)
      → ℤ
      → Work Entity
      → Handled Entity
  after_job none need units handled reserved batch cursor st =
      finish_job batch handled need 0 cursor (
        add_effect_if (not (eqb need 0)) (succeeded need) (
          add_effect_if (not (eqb units 0)) (charged units) (settle_tokens true units reserved st)))
  after_job (some e) need units handled reserved batch cursor st =
      finish_job batch handled 0 (at_least_one_of need) cursor
        (add_effect (failed (at_least_one_of need)) (settle_tokens false units reserved st))

module _ {Err Entity : Type 0} (env : JobEnv Err Entity) where
  -- The waits before a send: for the quota, and for tokens or for the window. `none` is the end of
  -- the task's context.
  unfoldable pub wait_tokens : ℕ → Work Entity → Work Entity × Option ℤ
  wait_tokens units st =
      if eqb units 0
      then (
        st,
        if window_rounds st.rt.task_id (env.clock st.turn) st.tasks then some (pos 0) else none,
      )
      else (let (tasks, r) =
            reserve_rounds st.rt.task_id (pos units) (env.clock st.turn) st.tasks in
          (record st { tasks = tasks }, r))

  unfoldable pub wait_to_send : ℕ → ℕ → Work Entity → Work Entity × Option ℤ
  wait_to_send need units st =
      if eqb need 0
      then (st, some (pos 0))
      else elim (env.wait_quota st.turn units) [ some e ↦ (st, none) | none ↦ wait_tokens units st ]

  unfoldable pub sent_after :
      Option Err → ℕ → ℕ → ℕ → List (Msg Entity) → ℤ → Work Entity × Option ℤ → Handled Entity
  sent_after result need units handled batch cursor (st, none) =
      ends (record st { rt = drain_queue_on_stop st.rt })
  sent_after result need units handled batch cursor (st, some reserved) =
      after_job result need units handled reserved batch cursor st

  unfoldable pub send_one : Msg Entity → Msg Entity → Work Entity → Handled Entity
  send_one msg out st =
      let rules = record (env.rules st.turn) { allowed_types = none } in
      let need = Filter.quota_sendable_count env.media rules out in
      let units = Filter.quota_units_for_single env.media rules.keep_reply out need in
      sent_after (env.send st.turn out) need units 1 (msg ∷ []) msg.id (wait_to_send need units st)

  unfoldable pub handle_one : Msg Entity → Work Entity → Handled Entity
  handle_one msg st =
      let (out, skip) = if env.has_keywords then env.keyword msg else (msg, false) in
      let counts = msg.has_media || not (Filter.is_blank msg.message) in
      if leb_ℤ msg.id (pos 0)
      then goes_on st
      else if not (Filter.content_allowed env.media (env.rules st.turn) msg)
      then finish_job (msg ∷ []) 1 0 0 msg.id (add_effect (filtered 1) st)
      else if skip
      then finish_job (msg ∷ []) 1 0 0 msg.id (add_effect_if counts (filtered 1) st)
      else send_one msg out st

  -- maxID
  unfoldable pub max_id_of : List (Msg Entity) → ℤ
  max_id_of [] = pos 0
  max_id_of (msg ∷ rest) = let best = max_id_of rest in if ltb_ℤ best msg.id then msg.id else best

  unfoldable pub send_plan_of : MediaGroupPlan Entity → ℕ → Option Err
  send_plan_of plan turn = elim plan.text [
    | some msg ↦ env.send turn msg
    | none ↦ env.send_album turn plan.media
  ]

  unfoldable pub keywords_of : MediaGroupPlan Entity → MediaGroupPlan Entity × Bool
  keywords_of plan =
      if eqb plan.need 0 || not env.has_keywords then (plan, false) else elim (carrier_of plan) [
        | none ↦ (plan, false)
        | some msg ↦ (with_carrier (env.keyword msg).0 plan, (env.keyword msg).1)
      ]

  -- A job without anything to send is not sent, and has no error.
  unfoldable pub send_batch :
      MediaGroupPlan Entity → List (Msg Entity) → Work Entity → Handled Entity
  send_batch plan batch st =
      let units =
        Filter.quota_units_for_batch env.media (env.rules st.turn).keep_reply batch plan.need in
      let handled = plan.need + plan.skipped in
      if eqb plan.need 0
      then finish_job batch handled 0 0 (max_id_of batch) st
      else sent_after (send_plan_of plan st.turn) plan.need units handled batch (max_id_of batch)
          (wait_to_send plan.need units st)

  unfoldable pub handle_batch : List (Msg Entity) → Work Entity → Handled Entity
  handle_batch batch st =
      let plan = Filter.plan_media_group env.media (env.rules st.turn) batch in
      let counted = add_effect_if (not (eqb plan.skipped 0)) (filtered plan.skipped) st in
      let (changed, skip) = keywords_of plan in
      if eqb (length batch) 0
      then goes_on st
      else if skip
      then finish_job batch (plan.need + plan.skipped) 0 0 (max_id_of batch)
          (add_effect (filtered plan.need) counted)
      else send_batch changed batch counted

  -- The batch of an album's channel; a channel that was closed without one gives none.
  unfoldable pub batch_at : ℕ → Map ℕ (AlbumChan Entity) → List (Msg Entity)
  batch_at ch chans = elim (lookup ch chans) [
    | none ↦ []
    | some c ↦ elim c.batch [ none ↦ [] | some batch ↦ batch ]
  ]

  -- A job of an album whose channel is closed: the wait for that is over.
  unfoldable pub handle_job : Job Entity → Work Entity → Handled Entity
  handle_job (single from_pull msg) st = handle_one msg st
  handle_job (album from_pull gid ch) st = handle_batch (batch_at ch st.rt.chans) st
