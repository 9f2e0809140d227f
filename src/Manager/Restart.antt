-- ===== src/Manager/Restart.antt =====
-- What a restart leaves of the counters.
use tgvive.Prelude.{ℕ, ◌≢◌, ◌≡◌, some, arith, nat_eq, ap, ◌∙◌}
use tgvive.Manager.Handlers.{
  reset_task, restart_task, state_at, stop_task, TaskManager, halt_task, start_task,
}
use tgvive.Manager.States.{started_state, cleared, reset_state, is_over, halted_state}
use tgvive.Manager.{
  append_log, TaskState, ensure_state, Task, ensure_counts, raise_pos, stopped, was_stopped,
}
use tgvive.Clock.{Time}
use tgvive.Prelude.Map.{lookup, lookup-insert, same_refl}
use tgvive.Prelude.Int.{pos}
use tgvive.Manager.Runs.{halt_task-state, start_task-state}

started_counts :
    (now : Time) (t : Task) (st : TaskState)
    → (started_state now t (ensure_state t (reset_state st))).counts.processed
      ≡ raise_pos t.progress.processed (pos 0)
unfolding started_state cleared append_log ensure_state ensure_counts reset_state is_over
started_counts now t st = ground arith

found_state :
    {Msg Pub Rt : Type 0} (id : ℕ) (m : TaskManager Msg Pub Rt) (st : TaskState)
    → lookup id m.states ≡ some st
    → state_at id m ≡ st
unfolding state_at
found_state id m st h = ground (arith, h)

module _ {Msg Pub Rt : Type 0} (unregister : ℕ → Rt → Rt) where
  -- The reset between the two halves of a restart.
  reset_task-state :
      (id : ℕ) (m : TaskManager Msg Pub Rt) (st : TaskState)
      → lookup id m.states ≡ some st
      → state_at id (reset_task id m) ≡ reset_state st
  unfolding reset_task state_at
  reset_task-state id m st h =
      ground (arith, h, lookup-insert id id (reset_state st) m.states, same_refl id)

  restarted :
      (now : Time) (t : Task) (m : TaskManager Msg Pub Rt)
      → t.id ≢ 0
      → state_at t.id (restart_task unregister now t m).manager
        ≡ started_state now t
            (ensure_state t (reset_state (halted_state now stopped was_stopped (state_at t.id m))))
  unfolding restart_task stop_task
  restarted now t m h =
      let stop = (halt_task unregister now stopped was_stopped t.id m).manager in
      let reset = reset_task t.id stop in
      let (halted, gone) = halt_task-state unregister now stopped was_stopped t.id m h in
      let (found, runs) = start_task-state unregister now t reset h in
      let held = found_state t.id (start_task unregister now t reset).manager _ found in
      let was = reset_task-state t.id stop _ halted in ground (arith, h, held, was)

  -- RestartTask clears the counters, but the start that follows fills them again from the task that
  -- it was given: the count of processed messages begins at the count that was persisted before, if
  -- that is positive, and not at 0.
  pub restart_task-processed :
      (now : Time) (t : Task) (m : TaskManager Msg Pub Rt)
      → t.id ≢ 0
      → (state_at t.id (restart_task unregister now t m).manager).counts.processed
        ≡ raise_pos t.progress.processed (pos 0)
  restart_task-processed now t m h =
      ap (λ st. st.counts.processed) (restarted now t m h)
      ∙ started_counts now t (halted_state now stopped was_stopped (state_at t.id m))
