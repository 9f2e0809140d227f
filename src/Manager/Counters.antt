-- ===== src/Manager/Counters.antt =====
-- The counters of every task are counts, and its log is bounded.
use tgvive.Manager.{
  Counts, TaskState, append_log, default_total, recent_total, range_total, infer_total, raise_pos,
  raise, ensure_state, set_status, sync_from_db, Task, ensure_counts, rest_speed, sync_counts,
  LogText, max_logs, extract_ints, line, new_task_state, started,
}
use tgvive.Manager.States.{
  bump, record_state, bump_counts, halted_state, reset_state, started_state, completed_state,
  with_total, cleared,
}
use tgvive.Prelude.Int.{pos, ℤ, ◌≤ℤ◌, eqb_ℤ, leb_ℤ}
use tgvive.Prelude.{
  false, length, ◌≤◌, List, if◌then◌else◌, arith, ◌++◌, ◌∷◌, true, [], length-append, length-drop,
  ◌-◌, ℕ, Bool,
}
use tgvive.Clock.{Time}
use tgvive.Text.{Text, text_same}

abbrev pub IsCounts : Counts → Type 0
IsCounts c =
    (pos 0 ≤ℤ c.total)
    × (pos 0 ≤ℤ c.processed)
    × (pos 0 ≤ℤ c.success)
    × (pos 0 ≤ℤ c.fail)
    × (pos 0 ≤ℤ c.root)
    × (pos 0 ≤ℤ c.reply)

pub record IsSane (st : TaskState) : Type 0 where
  pub counts_nonneg : IsCounts st.counts
  pub logs_fit : length st.logs ≤ max_logs

pub append_log-IsSane :
    (now : Time) (msg : LogText) (st : TaskState) → IsSane st → IsSane (append_log now msg st)
unfolding append_log
append_log-IsSane now msg st h =
    let logs = st.logs ++ (now, msg) ∷ [] in
    record {
      counts_nonneg = h.counts_nonneg;
      logs_fit = ground (
        arith,
        h.logs_fit,
        length-append st.logs ((now, msg) ∷ []),
        length-drop (length logs - max_logs) logs,
      );
    }

default_total_nonneg : (t : Task) → pos 0 ≤ℤ default_total t
unfolding default_total
default_total_nonneg t = ground arith

recent_total_nonneg : (t : Task) (ns : List ℤ) → pos 0 ≤ℤ recent_total t ns
unfolding recent_total
recent_total_nonneg t [] = default_total_nonneg t
recent_total_nonneg t (n ∷ []) = ground (arith, default_total_nonneg t)
recent_total_nonneg t (n ∷ k ∷ rest) = default_total_nonneg t

range_total_nonneg : (t : Task) (ns : List ℤ) → pos 0 ≤ℤ range_total t ns
unfolding range_total
range_total_nonneg t [] = default_total_nonneg t
range_total_nonneg t (n ∷ []) = default_total_nonneg t
range_total_nonneg t (n ∷ k ∷ rest) = ground (arith, default_total_nonneg t)

pub infer_total_nonneg : (t : Task) → pos 0 ≤ℤ infer_total t
unfolding infer_total
infer_total_nonneg t = ground (
  arith,
  default_total_nonneg t,
  recent_total_nonneg t (extract_ints t.scope_value 1),
  range_total_nonneg t (extract_ints t.scope_value 2),
)

raise_pos_nonneg : (new old : ℤ) → pos 0 ≤ℤ old → pos 0 ≤ℤ raise_pos new old
unfolding raise_pos
raise_pos_nonneg new old h = ground (arith, h)

raise_nonneg : (new old : ℤ) → pos 0 ≤ℤ old → pos 0 ≤ℤ raise new old
unfolding raise
raise_nonneg new old h = ground (arith, h)

bump_nonneg : (delta n : ℤ) → pos 0 ≤ℤ n → pos 0 ≤ℤ bump delta n
unfolding bump
bump_nonneg delta n h = ground (arith, h)

pub ensure_state-IsSane : (t : Task) (st : TaskState) → IsSane st → IsSane (ensure_state t st)
unfolding ensure_state ensure_counts
ensure_state-IsSane t st h =
    let total = if leb_ℤ st.counts.total (pos 0) then infer_total t else st.counts.total in
    let inferred : pos 0 ≤ℤ total = ground (arith, infer_total_nonneg t, h.counts_nonneg) in
    let (ht, hp, hs, hf, hr, hy) = h.counts_nonneg in
    record {
      counts_nonneg = (
        raise_pos_nonneg t.progress.total total inferred,
        raise_pos_nonneg t.progress.processed st.counts.processed hp,
        raise_pos_nonneg t.progress.success st.counts.success hs,
        raise_pos_nonneg t.progress.fail st.counts.fail hf,
        raise_pos_nonneg t.progress.root st.counts.root hr,
        raise_pos_nonneg t.progress.reply st.counts.reply hy,
      );
      logs_fit = h.logs_fit;
    }

pub set_status-IsSane : (s : ℤ) (st : TaskState) → IsSane st → IsSane (set_status s st)
unfolding set_status rest_speed
set_status-IsSane s st h = ground (arith, h, h.counts_nonneg, h.logs_fit)

pub sync_from_db-IsSane : (t : Task) (st : TaskState) → IsSane st → IsSane (sync_from_db t st)
unfolding sync_from_db sync_counts
sync_from_db-IsSane t st h =
    let (ht, hp, hs, hf, hr, hy) = h.counts_nonneg in
    let st' = record st { counts = sync_counts t st.counts; realtime = t.realtime } in
    let sane : IsSane st' = record {
      counts_nonneg = (
        raise_nonneg t.progress.total (raise (infer_total t) st.counts.total)
            (raise_nonneg (infer_total t) st.counts.total ht),
        raise_nonneg t.progress.processed st.counts.processed hp,
        raise_nonneg t.progress.success st.counts.success hs,
        raise_nonneg t.progress.fail st.counts.fail hf,
        raise_nonneg t.progress.root st.counts.root hr,
        raise_nonneg t.progress.reply st.counts.reply hy,
      );
      logs_fit = h.logs_fit;
    } in
    elim (eqb_ℤ st.status t.status) as (λ b. IsSane (if b then st' else set_status t.status st')) [
      | true ↦ sane
      | false ↦ set_status-IsSane t.status st' sane
    ]

pub record_state-IsSane :
    (now : Time) (d : Counts) (log_line : Text) (st : TaskState)
    → IsSane st
    → IsSane (record_state now d log_line st)
unfolding record_state bump_counts
record_state-IsSane now d log_line st h =
    let (ht, hp, hs, hf, hr, hy) = h.counts_nonneg in
    let st' = record st { counts = bump_counts d st.counts } in
    let sane : IsSane st' = record {
      counts_nonneg = (
        bump_nonneg d.total st.counts.total ht,
        bump_nonneg d.processed st.counts.processed hp,
        bump_nonneg d.success st.counts.success hs,
        bump_nonneg d.fail st.counts.fail hf,
        bump_nonneg d.root st.counts.root hr,
        bump_nonneg d.reply st.counts.reply hy,
      );
      logs_fit = h.logs_fit;
    } in
    elim (text_same log_line [])
      as (λ b. IsSane (if b then st' else append_log now (line log_line) st')) [
        | true ↦ sane
        | false ↦ append_log-IsSane now (line log_line) st' sane
      ]

pub new_task_state-IsSane : (id : ℕ) → IsSane (new_task_state id)
new_task_state-IsSane id = record {
  counts_nonneg = (omega arith, omega arith, omega arith, omega arith, omega arith, omega arith);
  logs_fit = omega arith;
}

pub halted_state-IsSane :
    (now : Time) (status : ℤ) (msg : LogText) (st : TaskState)
    → IsSane st
    → IsSane (halted_state now status msg st)
unfolding halted_state rest_speed
halted_state-IsSane now status msg st h =
    append_log-IsSane now msg _ (record { counts_nonneg = h.counts_nonneg; logs_fit = h.logs_fit })

pub reset_state-IsSane : (st : TaskState) → IsSane (reset_state st)
unfolding reset_state
reset_state-IsSane st = record {
  counts_nonneg = (omega arith, omega arith, omega arith, omega arith, omega arith, omega arith);
  logs_fit = omega arith;
}

pub started_state-IsSane :
    (now : Time) (t : Task) (st : TaskState) → IsSane st → IsSane (started_state now t st)
unfolding started_state cleared
started_state-IsSane now t st h = append_log-IsSane now started _ (record {
  counts_nonneg = ground (arith, h.counts_nonneg, infer_total_nonneg t);
  logs_fit = ground (arith, h.logs_fit);
})

pub completed-IsSane :
    (stop_run : Bool) (st : TaskState) → IsSane st → IsSane (completed_state stop_run st)
unfolding completed_state rest_speed
completed-IsSane true st h = record { counts_nonneg = h.counts_nonneg; logs_fit = h.logs_fit }
completed-IsSane false st h = record { counts_nonneg = h.counts_nonneg; logs_fit = h.logs_fit }

pub with_total-IsSane : (total : ℤ) (st : TaskState) → IsSane st → IsSane (with_total total st)
unfolding with_total
with_total-IsSane total st h = record {
  counts_nonneg = ground (arith, h.counts_nonneg);
  logs_fit = h.logs_fit;
}
