-- ===== src/Manager/Runs.antt =====
-- Which run of a task is the current one.
use tgvive.Manager.States.{next_run_id, halted_state, started_state, cleared}
use tgvive.Manager.{append_log, TaskState, LogText, Task, rest_speed, ensure_state}
use tgvive.Prelude.{ℕ, ◌<◌, ◌^◌, ◌≡◌, ◌≢◌, refl, arith, none, some, nat_eq, false, eqb, ◌∙◌, ap}
use tgvive.Clock.{Time}
use tgvive.Manager.Handlers.{
  detach, halt_task, cancel_run, state_at, TaskManager, is_active_run, start_task, on_run, of_run,
}
use tgvive.Prelude.Int.{ℤ}
use tgvive.Prelude.Map.{lookup, lookup-delete, same_refl, lookup-insert}

next_run_id_other : (st : TaskState) → st.run_id < 2 ^ 64 → next_run_id st ≢ st.run_id
unfolding next_run_id
next_run_id_other st h e = omega (arith, e)

halted_state-run :
    (now : Time) (status : ℤ) (msg : LogText) (st : TaskState)
    → (halted_state now status msg st).run_id ≡ next_run_id st
unfolding halted_state rest_speed append_log
halted_state-run now status msg st = refl

ensure_state-run : (t : Task) (st : TaskState) → (ensure_state t st).run_id ≡ st.run_id
unfolding ensure_state
ensure_state-run t st = refl

ensured-next : (t : Task) (st : TaskState) → next_run_id (ensure_state t st) ≡ next_run_id st
unfolding next_run_id ensure_state
ensured-next t st = refl

started_state-run :
    (now : Time) (t : Task) (st : TaskState) → (started_state now t st).run_id ≡ next_run_id st
unfolding started_state cleared append_log
started_state-run now t st = ground arith

module _ {Msg Pub Rt : Type 0} (unregister : ℕ → Rt → Rt) where
  pub detach-states :
      (id : ℕ) (m : TaskManager Msg Pub Rt)
      → ((detach unregister id m).states ≡ m.states)
        × (lookup id (detach unregister id m).cancelers ≡ none)
  unfolding detach cancel_run
  detach-states id m = ground (arith, lookup-delete id id m.cancelers, same_refl id)

  detach-contexts :
      (id : ℕ) (m : TaskManager Msg Pub Rt) → (detach unregister id m).contexts ≡ m.contexts
  unfolding detach cancel_run
  detach-contexts id m = ground arith

  start_task-run :
      (now : Time) (t : Task) (m : TaskManager Msg Pub Rt)
      → t.id ≢ 0
      → (start_task unregister now t m).run
        ≡ some (t.id, next_run_id (ensure_state t (state_at t.id m)))
  unfolding start_task state_at
  start_task-run now t m h = ground (arith, h, (detach-states t.id m).0)

  -- What a paused or stopped task has: the next run number, no canceler.
  pub halt_task-state :
      (now : Time) (status : ℤ) (msg : LogText) (id : ℕ) (m : TaskManager Msg Pub Rt)
      → id ≢ 0
      → (lookup id (halt_task unregister now status msg id m).manager.states
          ≡ some (halted_state now status msg (state_at id m)))
        × (lookup id (halt_task unregister now status msg id m).manager.cancelers ≡ none)
  unfolding halt_task state_at
  halt_task-state now status msg id m h =
      let m' = detach unregister id m in
      let (same, gone) = detach-states id m in
      ground (
        arith,
        h,
        same,
        gone,
        lookup-insert id id (halted_state now status msg (state_at id m')) m'.states,
        same_refl id,
      )

  -- Once a task is paused or stopped, no run of it is active, and whatever the run that was the
  -- current one still reports changes nothing of the manager.
  pub halt_task-silences :
      (now : Time) (status : ℤ) (msg : LogText) (id run : ℕ) (m : TaskManager Msg Pub Rt)
      (change : TaskState → TaskState)
      → id ≢ 0
      → (state_at id m).run_id < 2 ^ 64
      → let m' = (halt_task unregister now status msg id m).manager in
        (is_active_run id run m' ≡ false) × (on_run id (state_at id m).run_id change m' ≡ m')
  unfolding is_active_run on_run of_run
  halt_task-silences now status msg id run m change h small =
      let (found, gone) = halt_task-state now status msg id m h in
      let fresh = next_run_id_other (state_at id m) small in
      ground (arith, found, gone, fresh, halted_state-run now status msg (state_at id m))

  -- The state of a task that is started, and its canceler.
  pub start_task-state :
      (now : Time) (t : Task) (m : TaskManager Msg Pub Rt)
      → t.id ≢ 0
      → (lookup t.id (start_task unregister now t m).manager.states
          ≡ some (started_state now t (ensure_state t (state_at t.id m))))
        × (lookup t.id (start_task unregister now t m).manager.cancelers ≡ some m.contexts)
  unfolding start_task state_at
  start_task-state now t m h =
      let m' = detach unregister t.id m in
      let (same, gone) = detach-states t.id m in
      let st = started_state now t (ensure_state t (state_at t.id m')) in
      ground (
        arith,
        h,
        same,
        detach-contexts t.id m,
        lookup-insert t.id t.id st m'.states,
        lookup-insert t.id t.id m'.contexts m'.cancelers,
        same_refl t.id,
      )

  -- A task that is started has one active run, the one that the call starts, and whatever the run
  -- that was the current one still reports changes nothing of the manager.
  pub start_task-takes_over :
      (now : Time) (t : Task) (m : TaskManager Msg Pub Rt) (change : TaskState → TaskState)
      → t.id ≢ 0
      → (state_at t.id m).run_id < 2 ^ 64
      → let new = next_run_id (state_at t.id m) in
        let e = start_task unregister now t m in
        (e.run ≡ some (t.id, new))
        × ((run : ℕ) → is_active_run t.id run e.manager ≡ eqb new run)
        × (on_run t.id (state_at t.id m).run_id change e.manager ≡ e.manager)
  unfolding is_active_run on_run of_run
  start_task-takes_over now t m change h small =
      let ensured = ensure_state t (state_at t.id m) in
      let (found, runs) = start_task-state now t m h in
      let fresh = next_run_id_other (state_at t.id m) small in
      let number = started_state-run now t ensured in
      let same = ensured-next t (state_at t.id m) in
      (
        start_task-run now t m h ∙ ap (λ n. some (t.id, n)) same,
        λ run. ground (arith, found, runs, number, same),
        ground (arith, found, runs, number, same, fresh),
      )
