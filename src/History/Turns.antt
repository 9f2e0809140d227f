-- ===== src/History/Turns.antt =====
-- What is done with one message, with one album, and with a page of messages. The three copies do the
-- same but for their mode: which messages they skip, where a group leaves the cursor, and how they
-- persist it.
use tgvive.Filter
use tgvive.History.Data.{
  Env, Mode, Sent, Copy, Step, done, broken, note_if, next, note, filtered, failed, carrier_of,
  download_failed, with_carrier, succeeded, persisted, charged, split_group, recorded, delivered,
  or_stop,
}
use tgvive.Prelude.{
  List, ℕ, Bool, Option, if◌then◌else◌, some, eqb, none, false, ◌||◌, ◌+◌, ◌∷◌, not, suc, length,
  [], zero, true, ◌++◌, ◌&&◌,
}
use tgvive.Filter.{Msg, MediaGroupPlan}
use tgvive.Prelude.Int.{leb_ℤ, pos, eqb_ℤ}

module _ {Err Entity : Type 0} (env : Env Err Entity) (mode : Mode Entity) where
  -- The end of every branch that is done with some messages: the cursor is moved and persisted, and
  -- the messages are recorded.
  unfoldable pub commit :
      List (Msg Entity) → ℕ → ℕ → List (Msg Entity) → Copy Entity → Step Err Entity
  commit group success fail rest st =
      let place = mode.persist_of (mode.edge group) in
      or_stop (env.persist st.turn place) (record st { cursor = mode.edge group })
        (next rest (record st {
          cursor = mode.edge group;
          processed = st.processed + length group;
          advanced = true;
          turn = suc st.turn;
          taken = st.taken ++ group;
          effects = st.effects ++ persisted place ∷ recorded group success fail ∷ [];
        }))

  -- What follows a send of a group: it has cost `units`, and `counted` messages were sent.
  unfoldable pub after_send :
      Sent Err → ℕ → ℕ → ℕ → List (Msg Entity) → List (Msg Entity) → Copy Entity → Step Err Entity
  after_send (broken e) units counted missed group rest st = done (some e) (note (failed missed) st)
  after_send (download_failed e) units counted missed group rest st =
      commit group 0 missed rest (note (failed missed) st)
  after_send delivered units counted missed group rest st =
      let sent = note_if counted (succeeded counted) st in
      or_stop (if eqb units 0 then none else env.quota_add st.turn units) sent
        (commit group counted 0 rest (note_if units (charged units) sent))

  -- The wait for the quota before a send, if something is to be sent.
  unfoldable pub wait_for : ℕ → ℕ → ℕ → Option Err
  wait_for turn need units = if eqb need 0 then none else env.wait_quota turn units

  unfoldable pub at_least_one : ℕ → ℕ
  at_least_one n = if eqb n 0 then 1 else n

  unfoldable pub send_single :
      Msg Entity → Msg Entity → List (Msg Entity) → Copy Entity → Step Err Entity
  send_single msg out rest st =
      let rules = env.rules st.turn in
      let need = Filter.quota_sendable_count env.media rules out in
      let units = Filter.quota_units_for_single env.media rules.keep_reply out need in
      or_stop (wait_for st.turn need units) st
        (after_send (env.send st.turn out) units need (at_least_one need) (msg ∷ []) rest st)

  unfoldable pub handle_single : Msg Entity → List (Msg Entity) → Copy Entity → Step Err Entity
  handle_single msg rest st =
      let (out, skip) = if env.has_keywords then env.keyword msg else (msg, false) in
      let one : ℕ = if msg.has_media || not (Filter.is_blank msg.message) then 1 else 0 in
      if not (Filter.content_allowed env.media (env.rules st.turn) msg)
      then commit (msg ∷ []) 0 0 rest (note (filtered 1) st)
      else if skip
      then commit (msg ∷ []) 0 0 rest (note_if one (filtered 1) st)
      else send_single msg out rest st

  unfoldable pub send_plan : MediaGroupPlan Entity → ℕ → Sent Err
  send_plan plan turn = elim plan.text [
    | some msg ↦ env.send turn msg
    | none ↦ env.send_album turn plan.media
  ]

  unfoldable pub send_group :
      MediaGroupPlan Entity → List (Msg Entity) → List (Msg Entity) → Copy Entity → Step Err Entity
  send_group plan group rest st =
      let units =
        Filter.quota_units_for_batch env.media (env.rules st.turn).keep_reply group plan.need in
      if eqb plan.need 0
      then commit group 0 0 rest st
      else or_stop (env.wait_quota st.turn units) st
          (after_send (send_plan plan st.turn) units plan.need plan.need group rest st)

  -- The keyword policy on the message of a plan that carries the text.
  unfoldable pub apply_keywords : MediaGroupPlan Entity → MediaGroupPlan Entity × Bool
  apply_keywords plan =
      if eqb plan.need 0 || not env.has_keywords then (plan, false) else elim (carrier_of plan) [
        | none ↦ (plan, false)
        | some msg ↦ (with_carrier (env.keyword msg).0 plan, (env.keyword msg).1)
      ]

  unfoldable pub handle_album :
      List (Msg Entity) → List (Msg Entity) → Copy Entity → Step Err Entity
  handle_album group rest st =
      let plan = Filter.plan_media_group env.media (env.rules st.turn) group in
      let (changed, skip) = apply_keywords plan in
      let counted = note_if plan.skipped (filtered plan.skipped) st in
      if skip
      then commit group 0 0 rest (note (filtered plan.need) counted)
      else send_group changed group rest counted

  unfoldable pub handle_group :
      List (Msg Entity) × List (Msg Entity) → Copy Entity → Step Err Entity
  handle_group ([], rest) st = next rest st
  handle_group (msg ∷ group, rest) st = handle_album (msg ∷ group) rest st

  -- One round of the loop over a page.
  unfoldable pub page_round : Bool → Msg Entity → List (Msg Entity) → Copy Entity → Step Err Entity
  page_round allow_equal msg rest st = or_stop (env.ctx_err st.turn) st (
      if leb_ℤ msg.id (pos 0) || mode.skips allow_equal st.cursor msg.id
      then next rest (record st { turn = suc st.turn })
      else if not (eqb_ℤ msg.grouped_id (pos 0)) && msg.has_media
      then handle_group (split_group (mode.skips allow_equal st.cursor) msg.grouped_id (msg ∷ rest))
          st
      else handle_single msg rest st)

  -- The loop over a page, with as many rounds as it has messages: each takes one at least.
  unfoldable pub handle_page : Bool → ℕ → List (Msg Entity) → Copy Entity → Step Err Entity
  handle_page allow_equal zero msgs st = next msgs st
  handle_page allow_equal (suc n) [] st = next [] st
  handle_page allow_equal (suc n) (msg ∷ rest) st = elim (page_round allow_equal msg rest st) [
    | done e st' ↦ done e st'
    | next rest' st' ↦ handle_page allow_equal n rest' st'
  ]
