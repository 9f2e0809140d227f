-- ===== src/Realtime/Ending.antt =====
-- The end of a job: its record, the task's place and the tokens.
use tgvive.Prelude.{
  ℕ, List, ◌∷◌, ◌++◌, ◌≡◌, ◌+◌, Option, suc, arith, ◌<◌, some, [], none, ap, subst, Bool, not, sym,
  eqb, true, ◌∙◌, false,
}
use tgvive.Prelude.{refl}
use tgvive.Realtime.Jobs.{
  filtered, failed, succeeded, charged, recorded, persisted, add_effect_if, settle_tokens,
  after_job, at_least_one_of,
}
use tgvive.Realtime.Jobs.{
  JobEffect, Work, persist_effect, finish_job, Handled, add_effect, advance_work, goes_on, ends,
}
use tgvive.Prelude.Int.{ℤ, ◌≤ℤ◌, pos, ◌<ℤ◌}
use tgvive.Realtime.{latest_processed_id, advance_cursor, RuntimeTask}
use tgvive.Filter.{Msg}
use tgvive.History.Data.{Persist}

module _ {Entity : Type 0} where
  unfoldable pub count_recorded : List (JobEffect Entity) → ℕ
  count_recorded [] = 0
  count_recorded (recorded batch handled sent missed ∷ rest) = suc (count_recorded rest)
  count_recorded (e ∷ rest) = count_recorded rest

  count_recorded-append :
      (xs ys : List (JobEffect Entity))
      → count_recorded (xs ++ ys) ≡ count_recorded xs + count_recorded ys
  unfolding count_recorded
  count_recorded-append [] ys = omega arith
  count_recorded-append (filtered n ∷ xs) ys = count_recorded-append xs ys
  count_recorded-append (failed n ∷ xs) ys = count_recorded-append xs ys
  count_recorded-append (succeeded n ∷ xs) ys = count_recorded-append xs ys
  count_recorded-append (charged n ∷ xs) ys = count_recorded-append xs ys
  count_recorded-append (persisted p ∷ xs) ys = count_recorded-append xs ys
  count_recorded-append (recorded b h s m ∷ xs) ys =
      let ih = count_recorded-append xs ys in omega (arith, ih)

  -- The state of a job before its end: the task and the number of records are those of `st`.
  abbrev pub IsBefore : Work Entity → Work Entity → Type 0
  IsBefore st now = (now.rt ≡ st.rt) × (count_recorded now.effects ≡ count_recorded st.effects)

  -- A job that goes on has been recorded once, and the task's place is at its last message at least.
  abbrev pub IsDone : ℤ → Work Entity → Handled Entity → Type 0
  IsDone cursor st (goes_on after) =
      (count_recorded after.effects ≡ suc (count_recorded st.effects))
      × (cursor ≤ℤ latest_processed_id after.rt)
      × (latest_processed_id st.rt ≤ℤ latest_processed_id after.rt)
  IsDone cursor st (ends after) = Unit

  advance_forward :
      (cursor : ℤ) (t : RuntimeTask Entity)
      → 0 < t.task_id
      → pos 0 <ℤ cursor
      → (cursor ≤ℤ latest_processed_id (advance_cursor cursor t).0)
        × (latest_processed_id t ≤ℤ latest_processed_id (advance_cursor cursor t).0)
  unfolding latest_processed_id advance_cursor
  advance_forward cursor t z c = ground arith

  persist_same :
      (o : Option Persist) (st : Work Entity)
      → ((persist_effect o st).rt ≡ st.rt)
        × (count_recorded (persist_effect o st).effects ≡ count_recorded st.effects)
  unfolding persist_effect add_effect count_recorded
  persist_same none st = (refl, refl)
  persist_same (some p) st =
      (refl, omega (arith, count_recorded-append st.effects (persisted p ∷ [])))

  pub finish-IsDone :
      (batch : List (Msg Entity)) (handled sent missed : ℕ) (cursor : ℤ) (st now : Work Entity)
      → 0 < st.rt.task_id
      → pos 0 <ℤ cursor
      → IsBefore st now
      → IsDone cursor st (finish_job batch handled sent missed cursor now)
  unfolding finish_job advance_work add_effect count_recorded
  finish-IsDone batch handled sent missed cursor st now z c (e, n) =
      let noted = add_effect (recorded batch handled sent missed) now in
      let (t, place) = advance_cursor cursor now.rt in
      let (a, b) = persist_same place (record noted { rt = t }) in
      let l = count_recorded-append now.effects (recorded batch handled sent missed ∷ []) in
      let same : latest_processed_id now.rt ≡ latest_processed_id st.rt =
        ap latest_processed_id e in
      let z' : 0 < now.rt.task_id = subst (λ (r : RuntimeTask Entity). 0 < r.task_id) (sym e) z in
      let f = advance_forward cursor now.rt z' c in
      let g : latest_processed_id (persist_effect place (record noted { rt = t })).rt
          ≡ latest_processed_id t =
        ap latest_processed_id a in
      (
        b
            ∙ l
            ∙ (let k : count_recorded now.effects + 1 ≡ suc (count_recorded st.effects) =
                  omega (arith, n) in
                k),
        rw g f.0,
        rw (g, sym same) f.1,
      )

  -- An effect that is no record.
  pub noted :
      (b : Bool) (e : JobEffect Entity) (st now : Work Entity)
      → count_recorded (e ∷ []) ≡ 0
      → IsBefore st now
      → IsBefore st (add_effect_if b e now)
  unfolding add_effect_if add_effect
  noted true e st now z (r, n) =
      (r, omega (arith, count_recorded-append now.effects (e ∷ []), z, n))
  noted false e st now z h = h

  pub noted_one :
      (e : JobEffect Entity) (st now : Work Entity)
      → count_recorded (e ∷ []) ≡ 0
      → IsBefore st now
      → IsBefore st (add_effect e now)
  unfolding add_effect_if
  noted_one e st now z h = noted true e st now z h

  settled :
      (is_sent : Bool) (units : ℕ) (reserved : ℤ) (st now : Work Entity)
      → IsBefore st now
      → IsBefore st (settle_tokens is_sent units reserved now)
  unfolding settle_tokens
  settled is_sent units reserved st now (e, n) = (ground (arith, e), ground (arith, n))

  pub after-IsDone :
      {Err : Type 0} (result : Option Err) (need units handled : ℕ) (reserved : ℤ)
      (batch : List (Msg Entity)) (cursor : ℤ) (st now : Work Entity)
      → 0 < st.rt.task_id
      → pos 0 <ℤ cursor
      → IsBefore st now
      → IsDone cursor st (after_job result need units handled reserved batch cursor now)
  unfolding after_job count_recorded
  after-IsDone none need units handled reserved batch cursor st now z c h =
      let left = settle_tokens true units reserved now in
      let paid = add_effect_if (not (eqb units 0)) (charged units) left in
      finish-IsDone batch handled need 0 cursor st
        (add_effect_if (not (eqb need 0)) (succeeded need) paid) z c
        (noted (not (eqb need 0)) (succeeded need) st paid refl (
          noted (not (eqb units 0)) (charged units) st left refl
            (settled true units reserved st now h)))
  after-IsDone (some e) need units handled reserved batch cursor st now z c h =
      let left = settle_tokens false units reserved now in
      finish-IsDone batch handled 0 (at_least_one_of need) cursor st
        (add_effect (failed (at_least_one_of need)) left) z c
        (noted_one (failed (at_least_one_of need)) st left refl
          (settled false units reserved st now h))
