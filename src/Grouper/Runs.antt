-- ===== src/Grouper/Runs.antt =====
-- Runs of the grouper: any calls of its methods, and any of its timers at any time, also one that
-- `Stop` came too late for.
use tgvive.Prelude.{
  none, ℕ, List, Bool, some, ◌++◌, ◌∷◌, [], if◌then◌else◌, ◌≡◌, eqb, ◌+◌, Option-cases, arith, inl,
  inr,
}
use tgvive.Grouper.{
  AlbumGrouper, Added, AlbumKey, add, new_grouper, fire, flush_task, add_to, batches, album_key,
  album_key_eq, AlbumGroup, next_seq, group_at,
}
use tgvive.Prelude.Int.{ℤ}
use tgvive.Prelude.Map.{IsMap, lookup, delete_if-IsMap, delete-IsMap, insert-IsMap}
use tgvive.Grouper.{drop_task}
use tgvive.Grouper.Conservation.{
  count, count_all, held, held-delete_if, held-delete, held-insert, count_all-batch_of,
  count-append, count_all-append,
}

pub data Event (Msg : Type 0) : Type 0 where
  message : ℕ → ℤ → Msg → Event Msg
  expire : AlbumKey → ℕ → Event Msg
  flush : ℕ → Event Msg
  discard : ℕ → Event Msg

-- The grouper, with the messages that it took in (a duplicate is not taken), the batches that it has
-- flushed, and the batches that `DropTask` threw away.
pub record Run (Msg : Type 0) : Type 0 where
  pub grouper : AlbumGrouper Msg
  pub taken : List Msg
  pub flushed : List (List Msg)
  pub dropped : List (List Msg)

-- The message, if `Add` has flushed it or started a timer for it.
pub taken_by : {Msg : Type 0} → Msg → Added Msg → List Msg
taken_by msg added = elim added.timer [
  | some t ↦ msg ∷ []
  | none ↦ elim added.flushed [ [] ↦ [] | b ∷ bs ↦ msg ∷ [] ]
]

module _ {Msg : Type 0} (id_of : Msg → ℤ) where
  unfoldable pub step : Event Msg → Run Msg → Run Msg
  step (message task_id grouped_id msg) r =
      let added = add id_of task_id grouped_id msg r.grouper in
      record r {
        grouper = added.grouper;
        taken = taken_by msg added ++ r.taken;
        flushed = added.flushed ++ r.flushed;
      }
  step (expire key timer_id) r =
      let (g, bs) = fire key timer_id r.grouper in
      record r { grouper = g; flushed = bs ++ r.flushed }
  step (flush task_id) r =
      let (g, bs) = flush_task task_id r.grouper in
      record r { grouper = g; flushed = bs ++ r.flushed }
  step (discard task_id) r = record r {
    grouper = drop_task task_id r.grouper;
    dropped = (if eqb task_id 0 then [] else batches task_id r.grouper.groups) ++ r.dropped;
  }

  unfoldable pub run : List (Event Msg) → Run Msg → Run Msg
  run [] r = r
  run (e ∷ es) r = run es (step e r)

  unfoldable pub start : ℤ → Run Msg
  start window = record { grouper = new_grouper window; taken = []; flushed = []; dropped = [] }

module _ {Msg : Type 0} (id_of : Msg → ℤ) (p : Msg → Bool) where
  -- What a run has taken in is what it has flushed, dropped and still holds.
  pub record IsBalanced (r : Run Msg) : Type 0 where
    pub is_map : IsMap r.grouper.groups
    pub balance :
        count p r.taken ≡ count_all p r.flushed + count_all p r.dropped + held p r.grouper.groups

  fire-balance :
      (key : AlbumKey) (timer_id : ℕ) (g : AlbumGrouper Msg)
      → IsMap g.groups
      → IsMap (fire key timer_id g).0.groups
        × (held p (fire key timer_id g).0.groups + count_all p (fire key timer_id g).1
            ≡ held p g.groups)
  unfolding fire count_all
  fire-balance key timer_id g m = elim (Option-cases (lookup key g.groups)) [
    | inl e ↦ ground (arith, m, e)
    | inr (group, e) ↦ ground (
      arith,
      m,
      e,
      delete-IsMap key g.groups m,
      held-delete p key group g.groups m e,
      count_all-batch_of p group.msgs,
    )
  ]

  flush_task-balance :
      (task_id : ℕ) (g : AlbumGrouper Msg)
      → IsMap g.groups
      → IsMap (flush_task task_id g).0.groups
        × (held p (flush_task task_id g).0.groups + count_all p (flush_task task_id g).1
            ≡ held p g.groups)
  unfolding flush_task count_all
  flush_task-balance task_id g m = ground (
    arith,
    delete_if-IsMap (λ k. eqb k.task_id task_id) g.groups m,
    held-delete_if p task_id g.groups,
  )

  add-balance :
      (task_id : ℕ) (grouped_id : ℤ) (msg : Msg) (g : AlbumGrouper Msg)
      → IsMap g.groups
      → let added = add id_of task_id grouped_id msg g in
        IsMap added.grouper.groups
        × (held p added.grouper.groups + count_all p added.flushed
            ≡ held p g.groups + count p (taken_by msg added))
  unfolding add add_to taken_by count_all count
  add-balance task_id grouped_id msg g m =
      let key = album_key task_id grouped_id in
      let group : AlbumGroup Msg = record {
        timer_id = next_seq g;
        msgs = (group_at key g.groups).msgs ++ msg ∷ [];
      } in
      ground (
        arith,
        insert-IsMap key group g.groups m,
        held-insert p key group g.groups,
        count-append p (group_at key g.groups).msgs (msg ∷ []),
      )

  step-IsBalanced : (e : Event Msg) (r : Run Msg) → IsBalanced r → IsBalanced (step id_of e r)
  unfolding step drop_task flush_task count_all
  step-IsBalanced (message task_id grouped_id msg) r b =
      let added = add id_of task_id grouped_id msg r.grouper in
      let (m, e) = add-balance task_id grouped_id msg r.grouper b.is_map in
      record {
        is_map = m;
        balance = omega (
          arith,
          e,
          b.balance,
          count-append p (taken_by msg added) r.taken,
          count_all-append p added.flushed r.flushed,
        );
      }
  step-IsBalanced (expire key timer_id) r b =
      let (m, e) = fire-balance key timer_id r.grouper b.is_map in
      record {
        is_map = m;
        balance =
            omega
              (arith, e, b.balance, count_all-append p (fire key timer_id r.grouper).1 r.flushed);
      }
  step-IsBalanced (flush task_id) r b =
      let (m, e) = flush_task-balance task_id r.grouper b.is_map in
      record {
        is_map = m;
        balance =
            omega
              (arith, e, b.balance, count_all-append p (flush_task task_id r.grouper).1 r.flushed);
      }
  step-IsBalanced (discard task_id) r b =
      let (m, e) = flush_task-balance task_id r.grouper b.is_map in
      let lost = count_all-append p (batches task_id r.grouper.groups) r.dropped in
      record { is_map = ground (arith, m); balance = ground (arith, e, b.balance, lost) }

  run-IsBalanced :
      (es : List (Event Msg)) (r : Run Msg) → IsBalanced r → IsBalanced (run id_of es r)
  unfolding run
  run-IsBalanced [] r b = b
  run-IsBalanced (e ∷ es) r b = run-IsBalanced es (step id_of e r) (step-IsBalanced e r b)

  -- Whatever calls are made and whichever timers fire, stopped ones included: of each kind of message,
  -- as many as were taken in have been flushed, been dropped with their task, or are still held, so
  -- that none is lost and none is flushed twice.
  pub nothing_lost :
      (window : ℤ) (es : List (Event Msg))
      → let r = run id_of es (start id_of window) in
        count p r.taken ≡ count_all p r.flushed + count_all p r.dropped + held p r.grouper.groups
  unfolding start new_grouper count count_all held
  nothing_lost window es =
      (run-IsBalanced es (start id_of window)
        (record { is_map = tt; balance = omega arith })).balance
