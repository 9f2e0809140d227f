-- ===== src/History/Commits.antt =====
-- A handler is done with its messages, or it stops and has taken none.
use tgvive.Filter
use tgvive.History.Data.{
  Env, Mode, note, note_if, Step, Copy, Sent, done, broken, next, download_failed, failed,
  delivered, or_stop, CopyEffect, succeeded, charged, filtered,
}
use tgvive.Prelude.{
  List, ℕ, some, ◌≡◌, ◌++◌, ◌+◌, length, true, ◌∷◌, [], none, refl, Bool, ap, Option, if◌then◌else◌,
  arith, false,
}
use tgvive.History.Turns.{commit, after_send, handle_single, send_group, handle_album, send_single}
use tgvive.Filter.{Msg, MediaGroupPlan}

-- What the handlers leave of a state: the messages taken, their number, and the mode of the turn.
abbrev pub Kept : {Entity : Type 0} → Copy Entity → Copy Entity → Type 0
Kept old st =
    (st.taken ≡ old.taken) × (st.processed ≡ old.processed) × (st.include_once ≡ old.include_once)

abbrev pub IsError : {Err : Type 0} → Option Err → Type 0
IsError none = ⊥
IsError (some e) = Unit {0}

module _ {Err Entity : Type 0} (env : Env Err Entity) (mode : Mode Entity) where
  -- What a handler of a group makes of a state.
  unfoldable pub Commits :
      List (Msg Entity) → List (Msg Entity) → Copy Entity → Step Err Entity → Type 0
  Commits group rest old (done e st) =
      (st.taken ≡ old.taken) × (st.processed ≡ old.processed) × IsError e
  Commits group rest old (next rest' st) =
      (rest' ≡ rest)
      × (st.taken ≡ old.taken ++ group)
      × (st.processed ≡ old.processed + length group)
      × (st.cursor ≡ mode.edge group)
      × (st.include_once ≡ old.include_once)
      × (st.advanced ≡ true)

  or_stop-Commits :
      (o : Option Err) (st : Copy Entity) (later : Step Err Entity) (group rest : List (Msg Entity))
      (old : Copy Entity)
      → Kept old st
      → Commits group rest old later
      → Commits group rest old (or_stop o st later)
  unfolding or_stop Commits
  or_stop-Commits none st later group rest old k h = h
  or_stop-Commits (some e) st later group rest old k h = (k.0, k.1, tt)

  if-Commits :
      (b : Bool) (x y : Step Err Entity) (group rest : List (Msg Entity)) (old : Copy Entity)
      → Commits group rest old x
      → Commits group rest old y
      → Commits group rest old (if b then x else y)
  if-Commits true x y group rest old h k = h
  if-Commits false x y group rest old h k = k

  -- To note an effect takes no message.
  note_if-Kept :
      (n : ℕ) (e : CopyEffect Entity) (old st : Copy Entity)
      → Kept old st
      → Kept old (note_if n e st)
  unfolding note_if note
  note_if-Kept n e old st k = (ground (arith, k.0), ground (arith, k.1), ground (arith, k.2))

  commit-Commits :
      (group rest : List (Msg Entity)) (success fail : ℕ) (st old : Copy Entity)
      → Kept old st
      → Commits group rest old (commit env mode group success fail rest st)
  unfolding commit Commits
  commit-Commits group rest success fail st old k =
      or_stop-Commits _ (record st { cursor = mode.edge group }) _ group rest old k
        (refl, ap (λ xs. xs ++ group) k.0, ap (λ n. n + length group) k.1, refl, k.2, refl)

  after_send-Commits :
      (sent : Sent Err) (units counted missed : ℕ) (group rest : List (Msg Entity))
      (st old : Copy Entity)
      → Kept old st
      → Commits group rest old (after_send env mode sent units counted missed group rest st)
  unfolding after_send note Commits
  after_send-Commits (broken e) units counted missed group rest st old k = (k.0, k.1, tt)
  after_send-Commits (download_failed e) units counted missed group rest st old k =
      commit-Commits group rest 0 missed (note (failed missed) st) old k
  after_send-Commits delivered units counted missed group rest st old k =
      let sent = note_if counted (succeeded counted) st in
      let k' = note_if-Kept counted (succeeded counted) old st k in
      or_stop-Commits _ sent _ group rest old k' (
        commit-Commits group rest counted 0 (note_if units (charged units) sent) old
          (note_if-Kept units (charged units) old sent k'))

  pub handle_single-Commits :
      (msg : Msg Entity) (rest : List (Msg Entity)) (st : Copy Entity)
      → Commits (msg ∷ []) rest st (handle_single env mode msg rest st)
  unfolding handle_single send_single note
  handle_single-Commits msg rest st =
      search (if-Commits, or_stop-Commits, commit-Commits, after_send-Commits, note_if-Kept)

  send_group-Commits :
      (plan : MediaGroupPlan Entity) (group rest : List (Msg Entity)) (st old : Copy Entity)
      → Kept old st
      → Commits group rest old (send_group env mode plan group rest st)
  unfolding send_group
  send_group-Commits plan group rest st old k =
      search (if-Commits, or_stop-Commits, commit-Commits, after_send-Commits, k)

  pub handle_album-Commits :
      (group rest : List (Msg Entity)) (st : Copy Entity)
      → Commits group rest st (handle_album env mode group rest st)
  unfolding handle_album note
  handle_album-Commits group rest st =
      let plan = Filter.plan_media_group env.media (env.rules st.turn) group in
      let counted = note_if plan.skipped (filtered plan.skipped) st in
      let kept = note_if-Kept plan.skipped (filtered plan.skipped) st st (refl, refl, refl) in
      if-Commits _ _ _ group rest st
        (commit-Commits group rest 0 0 (note (filtered plan.need) counted) st kept)
        (send_group-Commits _ group rest counted st kept)
