-- ===== src/History/CatchUp.antt =====
-- The catch-up of new messages returns like the copy from old to new.
use tgvive.History.Data.{Env, Request, Copy, Step, done, next}
use tgvive.History.Loops.{catch_up_new_messages, stop_long, turn_catch_up, run_turns, finished}
use tgvive.Prelude.{
  ℕ, ◌+◌, Bool, ◌<◌, ◌≡◌, false, [], All, arith, true, refl, length, Bool-cases, ltb, inl, inr,
  ◌||◌, if◌then◌else◌, none,
}
use tgvive.Prelude.Results.{ok}
use tgvive.History.Steps.{IsAnswer, Continues, left_to_do, stop-Continues, run_page-Continues}
use tgvive.Prelude.Int.{ℤ, leb_ℤ, pos, ltb_ℤ}
use tgvive.History.Modes.{start_catch_up, catch_up, since_of, fresh_copy}
use tgvive.History.Total.{Returns, run_turns-Returns, Returns-mono}
use tgvive.History.Runs.{Invariant}
use tgvive.History.Copies.{IsCopyFrom, above, above-IsMeasure_catch_up}
use tgvive.History.Groups.{IsStrict}
use tgvive.Filter.{older}
use tgvive.History.Laws.{catch_up-IsMode}
use tgvive.History.Order.{All-mono}

module _ {Err Entity : Type 0} (env : Env Err Entity) (top : ℕ)
    (answers : (turn : ℕ) (q : Request) → IsAnswer top (env.fetch turn q)) (since latest : ℤ) where
  stop_long-Continues :
      (start : ℤ) (include : Bool) (st : Copy Entity) (r : Step Err Entity)
      → Continues env
          (catch_up since latest)
          (catch_up-IsMode since latest)
          start
          include
          top
          (above top)
          (above-IsMeasure_catch_up since latest top)
          st
          r
      → Continues env
          (catch_up since latest)
          (catch_up-IsMode since latest)
          start
          include
          top
          (above top)
          (above-IsMeasure_catch_up since latest top)
          st
          (stop_long env r)
  unfolding stop_long Continues
  stop_long-Continues start include st (done e st') h = h
  stop_long-Continues start include st (next rest st') h =
      elim (Bool-cases (ltb 10000 st'.processed)) [ inl e ↦ rw e (h.0.0) | inr e ↦ rw e h ]

  turn_catch_up-Continues :
      (page_size start : ℤ) (include : Bool) (st : Copy Entity)
      → Invariant env (catch_up since latest) (catch_up-IsMode since latest) start include st
      → Continues env
          (catch_up since latest)
          (catch_up-IsMode since latest)
          start
          include
          top
          (above top)
          (above-IsMeasure_catch_up since latest top)
          st
          (turn_catch_up env since latest page_size st)
  unfolding turn_catch_up
  turn_catch_up-Continues page_size start include st inv =
      let laws = catch_up-IsMode since latest in
      let near = above-IsMeasure_catch_up since latest top in
      stop-Continues env (catch_up since latest) laws start include top (above top) near _ st _ inv
        (stop_long-Continues start include st _ (
          run_page-Continues env (catch_up since latest) laws start include top (above top) near st
            _ inv (answers _ _)))

  start_catch_up-first :
      (leb_ℤ (start_catch_up {Entity = Entity} since).cursor (pos 0) ≡ false)
      × ((start_catch_up {Entity = Entity} since).taken ≡ [])
      × ((start_catch_up {Entity = Entity} since).processed ≡ 0)
  unfolding start_catch_up
  start_catch_up-first = ground arith

  pub turns_to_latest-Returns :
      (page_size : ℤ) (fuel : ℕ)
      → top + 1 < fuel
      → Returns
          (λ e st. IsCopyFrom (catch_up since latest) (start_catch_up since) st)
          (run_turns (turn_catch_up env since latest page_size) fuel (start_catch_up since))
  unfolding Continues
  turns_to_latest-Returns page_size fuel enough =
      let first = start_catch_up {Entity = Entity} since in
      let (positive, empty, none_yet) = start_catch_up-first in
      run_turns-Returns (turn_catch_up env since latest page_size)
        (left_to_do env (catch_up since latest) (catch_up-IsMode since latest) first.cursor
          first.include_once top (above top) (above-IsMeasure_catch_up since latest top))
        (Invariant env (catch_up since latest) (catch_up-IsMode since latest) first.cursor
          first.include_once)
        _ (turn_catch_up-Continues page_size first.cursor first.include_once) fuel first
        (ground (arith, positive))
        (rw (empty, none_yet) ((tt, tt, tt, refl), (refl, (λ e. refl), (λ e. refl))))

-- Messages between those that were copied and the latest, each once and in order.
abbrev pub IsCaughtUp : {Entity : Type 0} → ℤ → ℤ → Copy Entity → Type 0
IsCaughtUp since latest st =
    IsStrict older st.taken
    × All (λ m. (ltb_ℤ since m.id ≡ true) × (leb_ℤ m.id latest ≡ true)) st.taken
    × (st.processed ≡ length st.taken)

-- The catch-up returns, whatever the other parts do, if the latest ID is known, every answer holds
-- positive IDs that differ and are at most `top`, and the loop has more turns than `top` + 1. The
-- messages that it has then recorded are counted, stand in the order of their IDs, so that none is
-- there twice, and lie above the greatest ID that was copied before, or above the latest less 500 if
-- none was, up to the latest.
pub catch_up_new_messages-Returns :
    {Err Entity : Type 0} (env : Env Err Entity) (top : ℕ) (latest baseline page_size : ℤ)
    (fuel : ℕ)
    → ((turn : ℕ) (q : Request) → IsAnswer top (env.fetch turn q))
    → top + 1 < fuel
    → Returns
        (λ e st. IsCaughtUp (since_of baseline latest) latest st)
        (catch_up_new_messages env (ok latest) baseline page_size fuel)
unfolding catch_up_new_messages
catch_up_new_messages-Returns {Err} {Entity} env top latest baseline page_size fuel answers enough =
    let since = since_of baseline latest in
    let copied = turns_to_latest-Returns env top answers since latest page_size fuel enough in
    let caught =
      Returns-mono _ (λ e st. IsCaughtUp since latest st)
        (run_turns (turn_catch_up env since latest page_size) fuel (start_catch_up since))
        (λ e st (strict, positive, wanted, count). (
          strict,
          All-mono
              (λ m.
                (catch_up {Entity = Entity} since latest).skips
                  (start_catch_up {Entity = Entity} since).include_once
                  (start_catch_up {Entity = Entity} since).cursor m.id
                ≡ false)
              _ st.taken (λ m h. ground (arith, h)) wanted,
          count,
        ))
        copied in
    elim (leb_ℤ latest (pos 0) || leb_ℤ latest since)
      as (λ b.
        Returns (λ e st. IsCaughtUp since latest st)
          (if b
            then finished none (fresh_copy since false (pos 0))
            else run_turns (turn_catch_up env since latest page_size) fuel
                (start_catch_up since))) [ true ↦ (tt, tt, refl) | false ↦ caught ]
