-- ===== src/Realtime/Done.antt =====
-- What a job leaves behind.
use tgvive.Prelude.{
  ℕ, List, ◌∷◌, ◌≡◌, ◌+◌, Option, arith, ◌<◌, some, [], none, ap, not, eqb, ◌∙◌, false,
  if◌then◌else◌, ◌||◌, Bool-cases, length, inl, inr,
}
use tgvive.Prelude.{refl}
use tgvive.Realtime.Jobs.{
  filtered, add_effect_if, JobEnv, wait_to_send, sent_after, wait_tokens, handle_one, handle_batch,
  send_one, send_batch, max_id_of, handle_job, keywords_of, batch_at,
}
use tgvive.Realtime.Jobs.{Work, add_effect}
use tgvive.Prelude.Int.{ℤ, pos, ◌<ℤ◌, leb_ℤ}
use tgvive.Realtime.{Job, single, album}
use tgvive.Filter.{Msg, is_blank, plan_media_group, content_allowed}
use tgvive.Realtime.Ending.{
  IsBefore, count_recorded, IsDone, after-IsDone, finish-IsDone, noted, noted_one,
}

module _ {Err Entity : Type 0} (env : JobEnv Err Entity) where
  wait_same :
      (need units : ℕ) (st : Work Entity)
      → ((wait_to_send env need units st).0.rt ≡ st.rt)
        × ((wait_to_send env need units st).0.effects ≡ st.effects)
  unfolding wait_to_send wait_tokens
  wait_same need units st = ground arith

  sent-IsDone :
      (result : Option Err) (need units handled : ℕ) (batch : List (Msg Entity)) (cursor : ℤ)
      (st : Work Entity) (waited : Work Entity × Option ℤ)
      → 0 < st.rt.task_id
      → pos 0 <ℤ cursor
      → IsBefore st waited.0
      → IsDone cursor st (sent_after env result need units handled batch cursor waited)
  unfolding sent_after
  sent-IsDone result need units handled batch cursor st (now, none) z c h = tt
  sent-IsDone result need units handled batch cursor st (now, some r) z c h =
      after-IsDone result need units handled r batch cursor st now z c h

  waited-IsDone :
      (result : Option Err) (need units handled : ℕ) (batch : List (Msg Entity)) (cursor : ℤ)
      (st now : Work Entity)
      → 0 < st.rt.task_id
      → pos 0 <ℤ cursor
      → IsBefore st now
      → IsDone cursor st
          (sent_after env result need units handled batch cursor (wait_to_send env need units now))
  waited-IsDone result need units handled batch cursor st now z c (e, n) =
      let (a, b) = wait_same need units now in
      sent-IsDone result need units handled batch cursor st (wait_to_send env need units now) z c
        (a ∙ e, ap count_recorded b ∙ n)

  one-IsDone :
      (msg : Msg Entity) (st : Work Entity)
      → 0 < st.rt.task_id
      → pos 0 <ℤ msg.id
      → IsDone msg.id st (handle_one env msg st)
  unfolding handle_one send_one count_recorded
  one-IsDone msg st z c =
      let same : IsBefore st st = (refl, refl) in
      let (out, skip) = if env.has_keywords then env.keyword msg else (msg, false) in
      let counts = msg.has_media || not (is_blank msg.message) in
      let positive : leb_ℤ msg.id (pos 0) ≡ false = ground (arith, c) in
      elim (Bool-cases (not (content_allowed env.media (env.rules st.turn) msg))) [
        | inl e ↦
            rw (positive, e)
              (finish-IsDone (msg ∷ []) 1 0 0 msg.id st (add_effect (filtered 1) st) z c
                (noted_one (filtered 1) st st refl same))
        | inr e ↦ elim (Bool-cases (if env.has_keywords then env.keyword msg else (msg, false)).1) [
          | inl f ↦
              rw (positive, e, f)
                (finish-IsDone (msg ∷ []) 1 0 0 msg.id st (add_effect_if counts (filtered 1) st) z c
                  (noted counts (filtered 1) st st refl same))
          | inr f ↦ rw (positive, e, f) (waited-IsDone _ _ _ 1 (msg ∷ []) msg.id st st z c same)
        ]
      ]

  max_nil : ¬ (pos 0 <ℤ max_id_of env [])
  unfolding max_id_of
  max_nil c = omega arith

  batch-IsDone :
      (batch : List (Msg Entity)) (st : Work Entity)
      → 0 < st.rt.task_id
      → pos 0 <ℤ max_id_of env batch
      → IsDone (max_id_of env batch) st (handle_batch env batch st)
  unfolding handle_batch send_batch count_recorded
  batch-IsDone [] st z c = absurd (max_nil c)
  batch-IsDone (m ∷ ms) st z c =
      let batch = m ∷ ms in
      let plan = plan_media_group env.media (env.rules st.turn) batch in
      let counted = add_effect_if (not (eqb plan.skipped 0)) (filtered plan.skipped) st in
      let before =
        noted (not (eqb plan.skipped 0)) (filtered plan.skipped) st st refl (refl, refl) in
      let changed = (keywords_of env plan).0 in
      let cursor = max_id_of env batch in
      let some_left : eqb (length batch) 0 ≡ false = ground arith in
      elim (Bool-cases (keywords_of env plan).1) [
        | inl e ↦
            rw (some_left, e)
              (finish-IsDone batch (plan.need + plan.skipped) 0 0 cursor st
                (add_effect (filtered plan.need) counted) z c
                (noted_one (filtered plan.need) st counted refl before))
        | inr e ↦ elim (Bool-cases (eqb changed.need 0)) [
          | inl f ↦
              rw (some_left, e, f)
                (finish-IsDone batch (changed.need + changed.skipped) 0 0 cursor st counted z c
                  before)
          | inr f ↦
              rw (some_left, e, f)
                (waited-IsDone _ changed.need _ (changed.need + changed.skipped) batch cursor st
                  counted z c before)
        ]
      ]

  -- The last ID of a job's messages.
  unfoldable pub cursor_of : Job Entity → Work Entity → ℤ
  cursor_of (single from_pull msg) st = msg.id
  cursor_of (album from_pull gid ch) st = max_id_of env (batch_at env ch st.rt.chans)

  -- Whatever becomes of a job with a message, whether it was filtered, sent or failed: unless the
  -- task's context ends in a wait, the job has been recorded once, the place of the task is at its last
  -- message at least, and is not behind where it was.
  pub handle_job-IsDone :
      (job : Job Entity) (st : Work Entity)
      → 0 < st.rt.task_id
      → pos 0 <ℤ cursor_of job st
      → IsDone (cursor_of job st) st (handle_job env job st)
  unfolding handle_job cursor_of
  handle_job-IsDone (single from_pull msg) st z c = one-IsDone msg st z c
  handle_job-IsDone (album from_pull gid ch) st z c =
      batch-IsDone (batch_at env ch st.rt.chans) st z c
