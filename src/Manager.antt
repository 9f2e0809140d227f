-- ===== src/Manager.antt =====
-- internal/engine/dispatcher.go and the state updates of worker.go: the runs of the tasks, their
-- counters and their logs. The mutex makes each locked part one step. `Pub` is the type of the
-- publisher runtimes; `Rt` is that of the Telegram runtimes, which `unregister` acts on. A context
-- is a number; `canceled` lists those whose cancel function was called. What is persisted and what
-- goroutine is started are results.
pub mod States
pub mod Handlers
pub mod Counters
pub mod Runs
pub mod Restart
pub mod Sane
mod Tests
use tgvive.Prelude.Int.{ℤ, pos, ltb_ℤ, eqb_ℤ, leb_ℤ}
use tgvive.Text.{Text, is_digit}
use tgvive.Prelude.{
  ℕ, List, if◌then◌else◌, Bool, false, ◌++◌, ◌∷◌, [], ◌&&◌, ltb, not, length, ◌-◌, true, leb, suc,
}
use tgvive.Clock.{Time, zero_time}
use tgvive.Prelude.Int64.{◌*i◌, ◌-i◌, ◌+i◌}
use tgvive.Prelude.{drop}

abbrev pub stopped : ℤ
stopped = pos 0

abbrev pub running : ℤ
running = pos 1

abbrev pub paused : ℤ
paused = pos 2

-- A line of a task's log: when it was written, and what.
pub data LogText : Type 0 where
  started : LogText
  was_paused : LogText
  was_stopped : LogText
  line : Text → LogText

-- The counters of a run, and what is persisted of them.
pub record Counts : Type 0 where
  pub total : ℤ
  pub processed : ℤ
  pub success : ℤ
  pub fail : ℤ
  pub root : ℤ
  pub reply : ℤ

-- What is read of a model.Task.
pub record Task : Type 0 where
  pub id : ℕ
  pub status : ℤ
  pub realtime : Bool
  pub scope_type : ℤ
  pub scope_value : Text
  pub history_max_id : ℤ
  pub progress : Counts

pub record TaskState : Type 0 where
  pub task_id : ℕ
  pub run_id : ℕ
  pub status : ℤ
  pub realtime : Bool
  pub completed : Bool
  pub counts : Counts
  pub speed_base_time : Time
  pub speed_base_processed : ℤ
  pub logs : List (Time × LogText)

abbrev pub no_counts : Counts
no_counts = record {
  total = pos 0;
  processed = pos 0;
  success = pos 0;
  fail = pos 0;
  root = pos 0;
  reply = pos 0;
}

abbrev pub new_task_state : ℕ → TaskState
new_task_state id = record {
  task_id = id;
  run_id = 0;
  status = stopped;
  realtime = false;
  completed = false;
  counts = no_counts;
  speed_base_time = zero_time;
  speed_base_processed = pos 0;
  logs = [];
}

abbrev pub max_logs : ℕ
max_logs = 200

-- appendLogLocked, less the broadcast.
unfoldable pub append_log : Time → LogText → TaskState → TaskState
append_log now msg st =
    let logs = st.logs ++ (now, msg) ∷ [] in
    record st {
      logs = if ltb max_logs (length logs) then drop (length logs - max_logs) logs else logs;
    }

-- The loop of `extractInts`: the number that is being read, if one is, and those that were read.
unfoldable pub extract_from : ℕ → Text → ℤ → Bool → List ℤ → List ℤ
extract_from max [] n in_number out = if in_number then out ++ n ∷ [] else out
extract_from max (ch ∷ s) n in_number out =
    let digit = extract_from max s (n *i pos 10 +i pos (ch - b'0')) true out in
    let after = extract_from max s (pos 0) false (out ++ n ∷ []) in
    let between = extract_from max s n false out in
    if is_digit ch
    then digit
    else if in_number
    then (if ltb 0 max && leb max (suc (length out)) then out ++ n ∷ [] else after)
    else between

unfoldable pub extract_ints : Text → ℕ → List ℤ
extract_ints s max = extract_from max s (pos 0) false []

-- What `inferTotal` falls back to.
unfoldable pub default_total : Task → ℤ
default_total t =
    if ltb_ℤ (pos 0) t.progress.total
    then t.progress.total
    else if ltb_ℤ (pos 0) t.history_max_id
    then t.history_max_id
    else pos 0

-- The number of the IDs between two, either first.
unfoldable pub range_size : ℤ → ℤ → ℤ
range_size start end = if ltb_ℤ end start then start -i end +i pos 1 else end -i start +i pos 1

unfoldable pub recent_total : Task → List ℤ → ℤ
recent_total t (n ∷ []) = if ltb_ℤ (pos 0) n then n else default_total t
recent_total t _ = default_total t

unfoldable pub range_total : Task → List ℤ → ℤ
range_total t (start ∷ end ∷ rest) =
    if ltb_ℤ (pos 0) start && ltb_ℤ (pos 0) end && ltb_ℤ (pos 0) (range_size start end)
    then range_size start end
    else default_total t
range_total t _ = default_total t

unfoldable pub infer_total : Task → ℤ
infer_total t =
    if eqb_ℤ t.scope_type (pos 2)
    then recent_total t (extract_ints t.scope_value 1)
    else if eqb_ℤ t.scope_type (pos 4)
    then range_total t (extract_ints t.scope_value 2)
    else default_total t

-- `if new > 0 && new > old { old = new }`
unfoldable pub raise_pos : ℤ → ℤ → ℤ
raise_pos new old = if ltb_ℤ (pos 0) new && ltb_ℤ old new then new else old

-- `if new > old { old = new }`
unfoldable pub raise : ℤ → ℤ → ℤ
raise new old = if ltb_ℤ old new then new else old

-- ensureStateLocked on the state of a task.
unfoldable pub ensure_counts : Task → Counts → Counts
ensure_counts t c =
    let total = if leb_ℤ c.total (pos 0) then infer_total t else c.total in
    record {
      total = raise_pos t.progress.total total;
      processed = raise_pos t.progress.processed c.processed;
      success = raise_pos t.progress.success c.success;
      fail = raise_pos t.progress.fail c.fail;
      root = raise_pos t.progress.root c.root;
      reply = raise_pos t.progress.reply c.reply;
    }

unfoldable pub ensure_state : Task → TaskState → TaskState
ensure_state t st = record st {
  counts = ensure_counts t st.counts;
  status = if eqb_ℤ st.status (pos 0) && not (eqb_ℤ t.status (pos 0)) then t.status else st.status;
  realtime = t.realtime;
}

-- syncFromDB on the state of a task.
unfoldable pub sync_counts : Task → Counts → Counts
sync_counts t c = record {
  total = raise t.progress.total (raise (infer_total t) c.total);
  processed = raise t.progress.processed c.processed;
  success = raise t.progress.success c.success;
  fail = raise t.progress.fail c.fail;
  root = raise t.progress.root c.root;
  reply = raise t.progress.reply c.reply;
}

-- A state outside a run has no base for its speed.
unfoldable pub rest_speed : TaskState → TaskState
rest_speed st = record st {
  speed_base_time = zero_time;
  speed_base_processed = st.counts.processed;
}

unfoldable pub set_status : ℤ → TaskState → TaskState
set_status status st =
    let st' = record st { status = status } in if eqb_ℤ status running then st' else rest_speed st'

unfoldable pub sync_from_db : Task → TaskState → TaskState
sync_from_db t st =
    let st' = record st { counts = sync_counts t st.counts; realtime = t.realtime } in
    if eqb_ℤ st.status t.status then st' else set_status t.status st'
