-- ===== src/Manager/Handlers.antt =====
-- The methods of TaskManager.
use tgvive.Grouper
use tgvive.Prelude.Map.{Map, lookup, delete, insert}
use tgvive.Prelude.{
  List, ℕ, Option, Bool, if◌then◌else◌, some, eqb, none, ◌∷◌, false, ◌||◌, [], nat_eq, true, ◌++◌,
  suc,
}
use tgvive.Clock.{Time}
use tgvive.Manager.{
  Task, TaskState, Counts, paused, stopped, LogText, was_paused, was_stopped, new_task_state,
  set_status, sync_from_db, ensure_state, append_log, no_counts, line,
}
use tgvive.Text.{Text, trim_space, text_same}
use tgvive.Prelude.Int.{ℤ}
use tgvive.Grouper.{AlbumGrouper}
use tgvive.Manager.States.{
  record_state, with_total, halted_state, reset_state, started_state, is_over, next_run_id,
  completed_state,
}

module _ (Msg Pub Rt : Type 0) where
  pub record TaskManager : Type 0 where
    pub cancelers : Map ℕ ℕ
    pub states : Map ℕ TaskState
    pub grouper : AlbumGrouper Msg
    pub publishers : Map ℕ Pub
    pub tg : Rt
    pub contexts : ℕ
    pub canceled : List ℕ

  -- What a method does besides: the snapshots that it persists, and the run that it starts.
  pub record Effect : Type 0 where
    pub manager : TaskManager
    pub persisted : List (ℕ × Counts)
    pub run : Option (ℕ × ℕ)

module _ {Msg Pub Rt : Type 0} where
  -- `m.states[id]`, and a new state where there is none.
  unfoldable pub state_at : ℕ → TaskManager Msg Pub Rt → TaskState
  state_at id m = elim (lookup id m.states) [ some st ↦ st | none ↦ new_task_state id ]

  -- `if cancel, ok := m.cancelers[id]; ok { cancel(); delete(m.cancelers, id) }`
  unfoldable pub cancel_run : ℕ → TaskManager Msg Pub Rt → TaskManager Msg Pub Rt
  cancel_run id m = elim (lookup id m.cancelers) [
    | none ↦ m
    | some ctx ↦ record m { cancelers = delete id m.cancelers; canceled = ctx ∷ m.canceled }
  ]

  -- The state of a task that has one, if it is that of a run.
  unfoldable pub of_run : ℕ → ℕ → TaskManager Msg Pub Rt → Option TaskState
  of_run id run m = elim (lookup id m.states) [
    | none ↦ none
    | some st ↦ if eqb st.run_id run then some st else none
  ]

  -- A change of the state of a run.
  unfoldable pub on_run :
      ℕ → ℕ → (TaskState → TaskState) → TaskManager Msg Pub Rt → TaskManager Msg Pub Rt
  on_run id run change m = elim (of_run id run m) [
    | none ↦ m
    | some st ↦ record m { states = insert id (change st) m.states }
  ]

  unfoldable pub is_active_run : ℕ → ℕ → TaskManager Msg Pub Rt → Bool
  is_active_run id run m = elim (of_run id run m) [
    | none ↦ false
    | some st ↦ elim (lookup id m.cancelers) [ none ↦ false | some ctx ↦ true ]
  ]

  -- recordEx; `record` is the same with no root and reply deltas.
  unfoldable pub record_ex :
      Time → ℕ → ℕ → Counts → Text → TaskManager Msg Pub Rt → TaskManager Msg Pub Rt
  record_ex now id run d log_line m = on_run id run (record_state now d log_line) m

  unfoldable pub record_detail :
      Time → ℕ → ℕ → Text → TaskManager Msg Pub Rt → TaskManager Msg Pub Rt
  record_detail now id run log_line m =
      let trimmed = trim_space log_line in
      if eqb id 0 || eqb run 0 || text_same trimmed []
      then m
      else on_run id run (append_log now (line trimmed)) m

  unfoldable pub mark_completed : ℕ → ℕ → Bool → TaskManager Msg Pub Rt → Effect Msg Pub Rt
  mark_completed id run stop_run m = elim (of_run id run m) [
    | none ↦ record { manager = m; persisted = []; run = none }
    | some st ↦
        let m' = if stop_run then cancel_run id m else m in
        let st' = completed_state stop_run st in
        record {
          manager = record m' { states = insert id st' m'.states };
          persisted = (id, st'.counts) ∷ [];
          run = none;
        }
  ]

  unfoldable pub set_state_status : ℕ → ℕ → ℤ → TaskManager Msg Pub Rt → TaskManager Msg Pub Rt
  set_state_status id run status m = if eqb id 0 then m else on_run id run (set_status status) m

  unfoldable pub set_state_total : ℕ → ℕ → ℤ → TaskManager Msg Pub Rt → TaskManager Msg Pub Rt
  set_state_total id run total m =
      if eqb id 0 || eqb run 0 then m else on_run id run (with_total total) m

  -- getOrCreateState: a state that is there is filled from the database, another one is made.
  unfoldable pub get_or_create_state : Task → TaskManager Msg Pub Rt → TaskManager Msg Pub Rt
  get_or_create_state t m = elim (lookup t.id m.states) [
    | some st ↦ record m { states = insert t.id (sync_from_db t st) m.states }
    | none ↦ record m { states = insert t.id (ensure_state t (new_task_state t.id)) m.states }
  ]

  unfoldable pub reset_task : ℕ → TaskManager Msg Pub Rt → TaskManager Msg Pub Rt
  reset_task id m = elim (lookup id m.states) [
    | none ↦ m
    | some st ↦ record m { states = insert id (reset_state st) m.states }
  ]

module _ {Msg Pub Rt : Type 0} (unregister : ℕ → Rt → Rt) where
  -- The head of StartTask, PauseTask and StopTask.
  unfoldable pub detach : ℕ → TaskManager Msg Pub Rt → TaskManager Msg Pub Rt
  detach id m = cancel_run id (record m {
    grouper = Grouper.drop_task id m.grouper;
    publishers = delete id m.publishers;
    tg = unregister id m.tg;
  })

  unfoldable pub start_task : Time → Task → TaskManager Msg Pub Rt → Effect Msg Pub Rt
  start_task now t m =
      if eqb t.id 0
      then record { manager = m; persisted = []; run = none }
      else (let m' = detach t.id m in
          let ensured = ensure_state t (state_at t.id m') in
          record {
            manager = record m' {
              cancelers = insert t.id m'.contexts m'.cancelers;
              contexts = suc m'.contexts;
              states = insert t.id (started_state now t ensured) m'.states;
            };
            persisted = if is_over ensured then (t.id, no_counts) ∷ [] else [];
            run = some (t.id, next_run_id ensured);
          })

  unfoldable pub halt_task : Time → ℤ → LogText → ℕ → TaskManager Msg Pub Rt → Effect Msg Pub Rt
  halt_task now status msg id m =
      if eqb id 0
      then record { manager = m; persisted = []; run = none }
      else (let m' = detach id m in
          let st = halted_state now status msg (state_at id m') in
          record {
            manager = record m' { states = insert id st m'.states };
            persisted = (id, st.counts) ∷ [];
            run = none;
          })

  unfoldable pub pause_task : Time → ℕ → TaskManager Msg Pub Rt → Effect Msg Pub Rt
  pause_task now id m = halt_task now paused was_paused id m

  unfoldable pub stop_task : Time → ℕ → TaskManager Msg Pub Rt → Effect Msg Pub Rt
  stop_task now id m = halt_task now stopped was_stopped id m

  unfoldable pub restart_task : Time → Task → TaskManager Msg Pub Rt → Effect Msg Pub Rt
  restart_task now t m =
      if eqb t.id 0
      then record { manager = m; persisted = []; run = none }
      else (let stop = stop_task now t.id m in
          let reset = reset_task t.id stop.manager in
          let start = start_task now t reset in
          record start { persisted = start.persisted ++ (t.id, no_counts) ∷ stop.persisted })
