-- ===== src/History.antt =====
-- internal/engine/history.go: the copy of a chat's history, from old to new, from new to old, and the
-- catch-up of new messages. This file has the bounds, the estimate and what the copies share. What the
-- Telegram client, the database and the other parts answer is the environment: a function for each
-- call, of the turn at which it is made. IDs are Go ints; `processed` counts messages that were held
-- in memory, so it does not wrap.
pub mod Data
pub mod Turns
pub mod Commits
pub mod Groups
pub mod Modes
pub mod Loops
pub mod Page
pub mod Takes
pub mod Sorting
pub mod Total
pub mod Order
pub mod Runs
pub mod Steps
pub mod Copies
pub mod Descent
pub mod CatchUp
pub mod Laws
mod Tests
use tgvive.Prelude.Int.{ℤ, pos, ltb_ℤ, eqb_ℤ, leb_ℤ}
use tgvive.Prelude.{List, Bool, ◌∷◌, if◌then◌else◌, ◌&&◌, []}
use tgvive.Manager.{Task, extract_ints}
use tgvive.Prelude.Int64.{◌+i◌, ◌-i◌}

pub record Bounds : Type 0 where
  pub min_id : ℤ
  pub max_id : ℤ
  pub max_messages : ℤ

abbrev pub no_bounds : Bounds
no_bounds = record { min_id = pos 0; max_id = pos 0; max_messages = pos 0 }

unfoldable pub recent_bounds : List ℤ → Bounds
recent_bounds (n ∷ []) =
    if ltb_ℤ (pos 0) n then record no_bounds { max_messages = n } else no_bounds
recent_bounds _ = no_bounds

unfoldable pub range_bounds : List ℤ → Bounds
range_bounds (start ∷ end ∷ rest) =
    if ltb_ℤ (pos 0) start && ltb_ℤ (pos 0) end
    then record no_bounds {
      min_id = if ltb_ℤ end start then end else start;
      max_id = if ltb_ℤ end start then start else end;
    }
    else no_bounds
range_bounds _ = no_bounds

unfoldable pub parse_history_bounds : Task → Bounds
parse_history_bounds task =
    if eqb_ℤ task.scope_type (pos 2)
    then recent_bounds (extract_ints task.scope_value 1)
    else if eqb_ℤ task.scope_type (pos 4)
    then range_bounds (extract_ints task.scope_value 2)
    else no_bounds

-- A bound that is not set gives way.
unfoldable pub min_or_one : Bounds → ℤ
min_or_one b = if leb_ℤ b.min_id (pos 0) then pos 1 else b.min_id

unfoldable pub cut_max : Bounds → ℤ → ℤ
cut_max b max_id = if ltb_ℤ (pos 0) b.max_id && ltb_ℤ b.max_id max_id then b.max_id else max_id

-- The estimate for a copy from old to new, with the greatest ID there is.
unfoldable pub estimate_old_to_new : Bounds → ℤ → ℤ → ℤ
estimate_old_to_new b cursor max_id =
    let raised =
      if ltb_ℤ (pos 0) b.min_id && ltb_ℤ cursor (b.min_id -i pos 1)
      then b.min_id -i pos 1
      else cursor in
    let from = if ltb_ℤ raised (pos 0) then pos 0 else raised in
    if leb_ℤ max_id from then pos 0 else max_id -i from

-- The estimate for a copy from new to old, with the messages to catch up.
unfoldable pub estimate_new_to_old : Bounds → ℤ → ℤ → ℤ → ℤ
estimate_new_to_old b cursor max_id baseline =
    let first = if leb_ℤ cursor (pos 0) then max_id +i pos 1 else cursor in
    let start =
      if ltb_ℤ (pos 0) b.max_id && ltb_ℤ (b.max_id +i pos 1) first
      then b.max_id +i pos 1
      else first in
    let extra =
      if ltb_ℤ (pos 0) baseline && ltb_ℤ baseline max_id then max_id -i baseline else pos 0 in
    if leb_ℤ start (min_or_one b) then pos 0 else start -i min_or_one b +i extra

unfoldable pub estimate_run_total : Bool → Bounds → ℤ → ℤ → ℤ → ℤ
estimate_run_total old_to_new b cursor max_id baseline =
    if ltb_ℤ (pos 0) b.max_messages
    then b.max_messages
    else if leb_ℤ max_id (pos 0)
    then pos 0
    else if ltb_ℤ (cut_max b max_id) (min_or_one b)
    then pos 0
    else if old_to_new
    then estimate_old_to_new b cursor (cut_max b max_id)
    else estimate_new_to_old b cursor (cut_max b max_id) baseline
