-- ===== src/Manager/Tests.antt =====
-- Runs of TaskManager of internal/engine/dispatcher.go.
use tgvive.Prelude.{ℕ, [], false, ◌*◌, ◌≡◌, some, eqb, arith, refl}
use tgvive.Manager.Handlers.{
  TaskManager, state_at, halt_task, restart_task, start_task, is_active_run, on_run,
}
use tgvive.Manager.{
  Task, infer_total, range_total, range_size, extract_ints, no_counts, extract_from, paused,
  was_paused, raise_pos,
}
use tgvive.Prelude.Map.{lookup}
use tgvive.Manager.Sane.{AllSane, Calls-AllSane, Calls, Call}
use tgvive.Prelude.Int.{ℤ, pos, ◌*ℤ◌, ◌+ℤ◌, ◌-ℤ◌}
use tgvive.Manager.States.{next_run_id}
use tgvive.Grouper.{new_grouper}
use tgvive.Text.{text, is_digit}
use tgvive.Clock.{day_ns}
use tgvive.Prelude.Int64.{◌*i◌, ◌+i◌, ◌-i◌, wrap64}
use tgvive.Manager.Restart.{restart_task-processed}
use tgvive.Manager.Runs.{start_task-takes_over, halt_task-silences}

abbrev no_op : ℕ → ℕ → ℕ
no_op id rt = rt

abbrev idle : TaskManager ℤ ℕ ℕ
idle = record {
  cancelers = [];
  states = [];
  grouper = new_grouper (pos 0);
  publishers = [];
  tg = 0;
  contexts = 0;
  canceled = [];
}

-- Task 3 copies a range of IDs, and 40 of its messages were persisted as processed.
abbrev copying : Task
copying = record {
  id = 3;
  status = pos 0;
  realtime = false;
  scope_type = pos 4;
  scope_value = text "[200, 101]";
  history_max_id = pos 0;
  progress = record no_counts { processed = pos 40 };
}

infers_range : infer_total copying ≡ pos 100
unfolding infer_total range_total range_size extract_ints extract_from is_digit ◌*i◌ ◌+i◌ ◌-i◌ ◌*ℤ◌
    ◌+ℤ◌ ◌-ℤ◌ wrap64
infers_range = refl

abbrev busy : TaskManager ℤ ℕ ℕ
busy = (start_task no_op (5 * day_ns) copying idle).manager

idle-AllSane : AllSane idle.states
unfolding lookup
idle-AllSane = record { at_task = λ id st e. cc }

Calls-AllSane_example : AllSane busy.states
Calls-AllSane_example =
    Calls-AllSane no_op (Calls.then Calls.start (Call.start_call (5 * day_ns) copying)) idle-AllSane

start_task-takes_over_example :
    let new = next_run_id (state_at 3 idle) in
    let e = start_task no_op (5 * day_ns) copying idle in
    (e.run ≡ some (3, new))
    × ((run : ℕ) → is_active_run 3 run e.manager ≡ eqb new run)
    × (on_run 3 (state_at 3 idle).run_id (λ st. st) e.manager ≡ e.manager)
unfolding state_at lookup
start_task-takes_over_example =
    start_task-takes_over no_op (5 * day_ns) copying idle (λ st. st) (λ e. omega (arith, e))
      (omega arith)

halt_task-silences_example :
    let m' = (halt_task no_op (5 * day_ns) paused was_paused 3 idle).manager in
    (is_active_run 3 1 m' ≡ false) × (on_run 3 (state_at 3 idle).run_id (λ st. st) m' ≡ m')
unfolding state_at lookup
halt_task-silences_example =
    halt_task-silences no_op (5 * day_ns) paused was_paused 3 1 idle (λ st. st)
      (λ e. omega (arith, e)) (omega arith)

restart_task-processed_example :
    (state_at 3 (restart_task no_op (5 * day_ns) copying busy).manager).counts.processed
    ≡ raise_pos (pos 40) (pos 0)
restart_task-processed_example =
    restart_task-processed no_op (5 * day_ns) copying busy (λ e. omega (arith, e))
