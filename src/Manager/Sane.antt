-- ===== src/Manager/Sane.antt =====
-- Every call of the manager's methods keeps the counters of every task.
use tgvive.Prelude.Map.{Map, lookup, insert, lookup-insert}
use tgvive.Prelude.{
  ℕ, ◌≡◌, Option-cases, some, Bool-cases, inl, eqb, arith, nat_eq, subst, inr, Bool, sym,
}
use tgvive.Manager.Handlers.{
  state_at, on_run, TaskManager, of_run, start_task, pause_task, stop_task, restart_task, record_ex,
  record_detail, mark_completed, set_state_status, set_state_total, get_or_create_state, detach,
  halt_task, reset_task, cancel_run,
}
use tgvive.Manager.{
  TaskState, Task, Counts, stopped, paused, LogText, ensure_state, was_stopped, was_paused,
  new_task_state, sync_from_db, line,
}
use tgvive.Clock.{Time}
use tgvive.Manager.Counters.{
  IsSane, new_task_state-IsSane, ensure_state-IsSane, completed-IsSane, halted_state-IsSane,
  started_state-IsSane, reset_state-IsSane, record_state-IsSane, sync_from_db-IsSane,
  append_log-IsSane, set_status-IsSane, with_total-IsSane,
}
use tgvive.Text.{Text, trim_space}
use tgvive.Prelude.Int.{ℤ}
use tgvive.Manager.States.{reset_state, completed_state, halted_state, started_state}
use tgvive.Manager.Runs.{detach-states}

pub record AllSane (states : Map ℕ TaskState) : Type 0 where
  pub at_task : (id : ℕ) (st : TaskState) → lookup id states ≡ some st → IsSane st

-- Any of the methods, with any arguments.
module _ {Msg Pub Rt : Type 0} (unregister : ℕ → Rt → Rt) where
  pub data Call (m : TaskManager Msg Pub Rt) : TaskManager Msg Pub Rt → Type 0 where
    start_call : (now : Time) (t : Task) → Call m (start_task unregister now t m).manager
    pause_call : (now : Time) (id : ℕ) → Call m (pause_task unregister now id m).manager
    stop_call : (now : Time) (id : ℕ) → Call m (stop_task unregister now id m).manager
    restart_call : (now : Time) (t : Task) → Call m (restart_task unregister now t m).manager
    record_call :
        (now : Time) (id run : ℕ) (d : Counts) (log_line : Text)
        → Call m (record_ex now id run d log_line m)
    detail_call :
        (now : Time) (id run : ℕ) (log_line : Text) → Call m (record_detail now id run log_line m)
    complete_call :
        (id run : ℕ) (stop_run : Bool) → Call m (mark_completed id run stop_run m).manager
    status_call : (id run : ℕ) (status : ℤ) → Call m (set_state_status id run status m)
    total_call : (id run : ℕ) (total : ℤ) → Call m (set_state_total id run total m)
    state_call : (t : Task) → Call m (get_or_create_state t m)

  -- Calls one after the other.
  pub data Calls (m : TaskManager Msg Pub Rt) : TaskManager Msg Pub Rt → Type 0 where
    start : Calls m m
    then : {m₁ m₂ : TaskManager Msg Pub Rt} → Calls m m₁ → Call m₁ m₂ → Calls m m₂

insert-AllSane :
    (id : ℕ) (st : TaskState) (states : Map ℕ TaskState)
    → IsSane st
    → AllSane states
    → AllSane (insert id st states)
insert-AllSane id st states h all = record {
  at_task = λ i s e. elim (Bool-cases (eqb id i)) [
    | inl same ↦ subst IsSane (ground (arith, same, e, lookup-insert i id st states)) h
    | inr other ↦ all.at_task i s (ground (arith, other, e, lookup-insert i id st states))
  ];
}

module _ {Msg Pub Rt : Type 0} where
  state_at-IsSane :
      (id : ℕ) (m : TaskManager Msg Pub Rt) → AllSane m.states → IsSane (state_at id m)
  unfolding state_at
  state_at-IsSane id m all = elim (Option-cases (lookup id m.states)) [
    | inl e ↦ rw (e, state_at) (new_task_state-IsSane id)
    | inr (st, e) ↦ rw (e, state_at) (all.at_task id st e)
  ]

  on_run-AllSane :
      (id run : ℕ) (change : TaskState → TaskState) (m : TaskManager Msg Pub Rt)
      → ((st : TaskState) → IsSane st → IsSane (change st))
      → AllSane m.states
      → AllSane (on_run id run change m).states
  unfolding on_run of_run
  on_run-AllSane id run change m keeps all = elim (Option-cases (lookup id m.states)) [
    | inl e ↦ ground (arith, e, all)
    | inr (st, e) ↦
        let kept = insert-AllSane id (change st) m.states (keeps st (all.at_task id st e)) all in
        ground (arith, e, all, kept)
  ]

module _ {Msg Pub Rt : Type 0} (unregister : ℕ → Rt → Rt) where
  detach-AllSane :
      (id : ℕ) (m : TaskManager Msg Pub Rt)
      → AllSane m.states
      → AllSane (detach unregister id m).states
  detach-AllSane id m all = subst AllSane (sym (detach-states unregister id m).0) all

  halt_task-AllSane :
      (now : Time) (status : ℤ) (msg : LogText) (id : ℕ) (m : TaskManager Msg Pub Rt)
      → AllSane m.states
      → AllSane (halt_task unregister now status msg id m).manager.states
  unfolding halt_task
  halt_task-AllSane now status msg id m all =
      let m' = detach unregister id m in
      let kept = detach-AllSane id m all in
      let sane = halted_state-IsSane now status msg _ (state_at-IsSane id m' kept) in
      let after =
        insert-AllSane id (halted_state now status msg (state_at id m')) m'.states sane kept in
      ground (arith, all, after)

  start_task-AllSane :
      (now : Time) (t : Task) (m : TaskManager Msg Pub Rt)
      → AllSane m.states
      → AllSane (start_task unregister now t m).manager.states
  unfolding start_task
  start_task-AllSane now t m all =
      let m' = detach unregister t.id m in
      let kept = detach-AllSane t.id m all in
      let st = ensure_state t (state_at t.id m') in
      let ensured = ensure_state-IsSane t _ (state_at-IsSane t.id m' kept) in
      let sane = started_state-IsSane now t st ensured in
      let after = insert-AllSane t.id (started_state now t st) m'.states sane kept in
      ground (arith, all, after)

  reset_task-AllSane :
      (id : ℕ) (m : TaskManager Msg Pub Rt) → AllSane m.states → AllSane (reset_task id m).states
  unfolding reset_task
  reset_task-AllSane id m all = elim (Option-cases (lookup id m.states)) [
    | inl e ↦ ground (arith, e, all)
    | inr (st, e) ↦
        let after = insert-AllSane id (reset_state st) m.states (reset_state-IsSane st) all in
        ground (arith, e, after)
  ]

  restart_task-AllSane :
      (now : Time) (t : Task) (m : TaskManager Msg Pub Rt)
      → AllSane m.states
      → AllSane (restart_task unregister now t m).manager.states
  unfolding restart_task stop_task
  restart_task-AllSane now t m all =
      let halted = (halt_task unregister now stopped was_stopped t.id m).manager in
      let stop = halt_task-AllSane now stopped was_stopped t.id m all in
      let reset = reset_task-AllSane t.id halted stop in
      let start = start_task-AllSane now t (reset_task t.id halted) reset in
      ground (arith, all, start)

  mark_completed-AllSane :
      (id run : ℕ) (stop_run : Bool) (m : TaskManager Msg Pub Rt)
      → AllSane m.states
      → AllSane (mark_completed id run stop_run m).manager.states
  unfolding mark_completed of_run cancel_run
  mark_completed-AllSane id run stop_run m all = elim (Option-cases (lookup id m.states)) [
    | inl e ↦ ground (arith, e, all)
    | inr (st, e) ↦
        let sane = completed-IsSane stop_run st (all.at_task id st e) in
        let after = insert-AllSane id (completed_state stop_run st) m.states sane all in
        ground (arith, e, all, after)
  ]

  get_or_create_state-AllSane :
      (t : Task) (m : TaskManager Msg Pub Rt)
      → AllSane m.states
      → AllSane (get_or_create_state t m).states
  unfolding get_or_create_state
  get_or_create_state-AllSane t m all = elim (Option-cases (lookup t.id m.states)) [
    | inl e ↦
        let sane = ensure_state-IsSane t _ (new_task_state-IsSane t.id) in
        let after = insert-AllSane t.id (ensure_state t (new_task_state t.id)) m.states sane all in
        ground (arith, e, after)
    | inr (st, e) ↦
        let sane = sync_from_db-IsSane t st (all.at_task t.id st e) in
        let after = insert-AllSane t.id (sync_from_db t st) m.states sane all in
        ground (arith, e, after)
  ]

  Call-AllSane :
      {m m' : TaskManager Msg Pub Rt} → Call unregister m m' → AllSane m.states → AllSane m'.states
  unfolding pause_task stop_task record_ex record_detail set_state_status set_state_total
  Call-AllSane (start_call now t) all = start_task-AllSane now t _ all
  Call-AllSane (pause_call now id) all = halt_task-AllSane now paused was_paused id _ all
  Call-AllSane (stop_call now id) all = halt_task-AllSane now stopped was_stopped id _ all
  Call-AllSane (restart_call now t) all = restart_task-AllSane now t _ all
  Call-AllSane (record_call now id run d log_line) all =
      on_run-AllSane id run _ _ (record_state-IsSane now d log_line) all
  Call-AllSane {m = m} (detail_call now id run log_line) all =
      let trimmed = trim_space log_line in
      let kept = on_run-AllSane id run _ m (append_log-IsSane now (line trimmed)) all in
      ground (arith, all, kept)
  Call-AllSane (complete_call id run stop_run) all = mark_completed-AllSane id run stop_run _ all
  Call-AllSane {m = m} (status_call id run status) all =
      let kept = on_run-AllSane id run _ m (set_status-IsSane status) all in
      ground (arith, all, kept)
  Call-AllSane {m = m} (total_call id run total) all =
      let kept = on_run-AllSane id run _ m (with_total-IsSane total) all in
      ground (arith, all, kept)
  Call-AllSane (state_call t) all = get_or_create_state-AllSane t _ all

  -- After any sequence of calls of the manager's methods, whatever is reported, persisted or read
  -- from the database and whether or not sums wrap, the six counters of every task are at least 0,
  -- and its log has at most 200 lines, if that was so before.
  pub Calls-AllSane :
      {m m' : TaskManager Msg Pub Rt} → Calls unregister m m' → AllSane m.states → AllSane m'.states
  Calls-AllSane Calls.start all = all
  Calls-AllSane (Calls.then before call) all = Call-AllSane call (Calls-AllSane before all)
