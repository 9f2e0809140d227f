-- ===== src/Manager/States.antt =====
-- What the methods of TaskManager make of the state of one task.
-- A run that was completed and stopped starts from scratch.
use tgvive.Manager.{
  TaskState, Counts, no_counts, Task, LogText, append_log, stopped, rest_speed, line, infer_total,
  started, running,
}
use tgvive.Clock.{Time, zero_time}
use tgvive.Prelude.Int.{ℤ, leb_ℤ, eqb_ℤ, ltb_ℤ, pos}
use tgvive.Prelude.{Bool, ℕ, false, if◌then◌else◌, ◌&&◌, [], ◌+◌, ◌%◌, ◌^◌, true}
use tgvive.Text.{Text, text_same}
use tgvive.Prelude.Int64.{◌+i◌}

unfoldable pub is_over : TaskState → Bool
is_over st = st.completed && eqb_ℤ st.status stopped

unfoldable pub cleared : TaskState → TaskState
cleared st = record st {
  counts = record no_counts { total = st.counts.total };
  completed = false;
  logs = [];
}

-- The next number of a run, in 64 bits.
unfoldable pub next_run_id : TaskState → ℕ
next_run_id st = (st.run_id + 1) % 2 ^ 64

-- What StartTask makes of the state that it has ensured.
unfoldable pub started_state : Time → Task → TaskState → TaskState
started_state now t ensured =
    let next = record ensured { run_id = next_run_id ensured } in
    let st = if is_over ensured then cleared next else next in
    let total = if leb_ℤ st.counts.total (pos 0) then infer_total t else st.counts.total in
    append_log now started (record st {
      status = running;
      realtime = t.realtime;
      counts = record st.counts { total = total };
      speed_base_time = now;
      speed_base_processed = st.counts.processed;
    })

-- What PauseTask and StopTask make of a state.
unfoldable pub halted_state : Time → ℤ → LogText → TaskState → TaskState
halted_state now status msg st =
    append_log now msg (rest_speed (record st { run_id = next_run_id st; status = status }))

-- What RestartTask makes of a state that was stopped.
unfoldable pub reset_state : TaskState → TaskState
reset_state st = record st {
  completed = false;
  counts = no_counts;
  speed_base_time = zero_time;
  speed_base_processed = pos 0;
  logs = [];
}

-- A counter after a change, cut at 0.
unfoldable pub bump : ℤ → ℤ → ℤ
bump delta n =
    if eqb_ℤ delta (pos 0) then n else if ltb_ℤ (n +i delta) (pos 0) then pos 0 else n +i delta

unfoldable pub bump_counts : Counts → Counts → Counts
bump_counts d c = record {
  total = bump d.total c.total;
  processed = bump d.processed c.processed;
  success = bump d.success c.success;
  fail = bump d.fail c.fail;
  root = bump d.root c.root;
  reply = bump d.reply c.reply;
}

unfoldable pub record_state : Time → Counts → Text → TaskState → TaskState
record_state now d log_line st =
    let st' = record st { counts = bump_counts d st.counts } in
    if text_same log_line [] then st' else append_log now (line log_line) st'

unfoldable pub with_total : ℤ → TaskState → TaskState
with_total total st = record st {
  counts = record st.counts { total = if ltb_ℤ total (pos 0) then pos 0 else total };
}

-- What markCompleted makes of a state.
unfoldable pub completed_state : Bool → TaskState → TaskState
completed_state true st = rest_speed (record st { completed = true; status = stopped })
completed_state false st = record st { completed = true }
