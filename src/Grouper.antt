-- ===== src/Grouper.antt =====
-- internal/engine/grouper.go: the grouper that collects the messages of an album until no more arrive.
-- A message is of a type of the Telegram library, of which only the ID is read. `flush` is a callback
-- of the caller: the batches that it is given are results. A timer is the pair that its function
-- closes over; the mutex makes each method one step.
pub mod Timers
pub mod Conservation
pub mod Runs
mod Tests
use tgvive.Prelude.Int.{ℤ, pos, leb_ℤ, eqb_ℤ, eqb_ℤ_iff}
use tgvive.Prelude.{
  ℕ, Bool, ◌≡◌, Comparable, List, eqb, true, Option, if◌then◌else◌, false, not, ◌+◌, ◌∷◌, ◌&&◌, ◌↔◌,
  some, ◌%◌, [], ◌||◌, ◌++◌, none, arith, ◌^◌,
}
use tgvive.Prelude.Map.{Map, lookup, delete_if, insert, delete}

-- 120 milliseconds in nanoseconds.
abbrev default_window : ℤ
default_window = pos 120000000

pub record AlbumKey : Type 0 where
  pub task_id : ℕ
  pub grouped_id : ℤ

abbrev pub album_key_same : AlbumKey → AlbumKey → Bool
album_key_same a b = eqb a.task_id b.task_id && eqb_ℤ a.grouped_id b.grouped_id

pub album_key_same_iff : (a b : AlbumKey) → (album_key_same a b ≡ true) ↔ (a ≡ b)
album_key_same_iff a b = ground (arith, eqb_ℤ_iff a.grouped_id b.grouped_id)

instance abbrev pub album_key_eq : Comparable AlbumKey
album_key_eq = record { same = album_key_same; same_iff = album_key_same_iff }

abbrev pub album_key : ℕ → ℤ → AlbumKey
album_key task_id grouped_id = record { task_id = task_id; grouped_id = grouped_id }

module _ (Msg : Type 0) where
  pub record AlbumGroup : Type 0 where
    pub timer_id : ℕ
    pub msgs : List Msg

  pub record AlbumGrouper : Type 0 where
    pub window : ℤ
    pub seq : ℕ
    pub groups : Map AlbumKey AlbumGroup

  -- What `Add` does besides: the batch that it flushes at once, and the timer that it starts.
  pub record Added : Type 0 where
    pub grouper : AlbumGrouper
    pub flushed : List (List Msg)
    pub timer : Option (AlbumKey × ℕ)

module _ {Msg : Type 0} where
  unfoldable pub new_grouper : ℤ → AlbumGrouper Msg
  new_grouper window = record {
    window = if leb_ℤ window (pos 0) then default_window else window;
    seq = 0;
    groups = [];
  }

  -- `g.groups[key]`, and a new group where there is none.
  unfoldable pub group_at : AlbumKey → Map AlbumKey (AlbumGroup Msg) → AlbumGroup Msg
  group_at key groups = elim (lookup key groups) [
    | some group ↦ group
    | none ↦ record { timer_id = 0; msgs = [] }
  ]

  -- The next number of a timer, in 64 bits.
  unfoldable pub next_seq : AlbumGrouper Msg → ℕ
  next_seq g = (g.seq + 1) % 2 ^ 64

  -- `if len(msgs) > 0`
  unfoldable pub batch_of : List Msg → List (List Msg)
  batch_of [] = []
  batch_of (m ∷ ms) = (m ∷ ms) ∷ []

  -- The function of a timer, with the batches that it flushes.
  unfoldable pub fire : AlbumKey → ℕ → AlbumGrouper Msg → AlbumGrouper Msg × List (List Msg)
  fire key timer_id g = elim (lookup key g.groups) [
    | none ↦ (g, [])
    | some group ↦
        if eqb group.timer_id timer_id
        then (record g { groups = delete key g.groups }, batch_of group.msgs)
        else (g, [])
  ]

  -- The batches of a task's groups; Go takes them in any order.
  unfoldable pub batches : ℕ → Map AlbumKey (AlbumGroup Msg) → List (List Msg)
  batches task_id [] = []
  batches task_id ((k, group) ∷ rest) =
      if eqb k.task_id task_id
      then batch_of group.msgs ++ batches task_id rest
      else batches task_id rest

  unfoldable pub flush_task : ℕ → AlbumGrouper Msg → AlbumGrouper Msg × List (List Msg)
  flush_task task_id g = if eqb task_id 0 then (g, []) else (
    record g { groups = delete_if (λ k. eqb k.task_id task_id) g.groups },
    batches task_id g.groups,
  )

  unfoldable pub drop_task : ℕ → AlbumGrouper Msg → AlbumGrouper Msg
  drop_task task_id g =
      if eqb task_id 0
      then g
      else record g { groups = delete_if (λ k. eqb k.task_id task_id) g.groups }

module _ {Msg : Type 0} (id_of : Msg → ℤ) where
  unfoldable pub has_id : ℤ → List Msg → Bool
  has_id i [] = false
  has_id i (m ∷ ms) = eqb_ℤ (id_of m) i || has_id i ms

  -- A message with an ID that the group holds already.
  unfoldable pub is_duplicate : Msg → List Msg → Bool
  is_duplicate msg msgs = not (eqb_ℤ (id_of msg) (pos 0)) && has_id (id_of msg) msgs

  -- The group is created before the test for a duplicate, which a new group never meets.
  unfoldable pub add_to : AlbumKey → Msg → AlbumGrouper Msg → Added Msg
  add_to key msg g =
      let group = group_at key g.groups in
      if is_duplicate msg group.msgs
      then record { grouper = g; flushed = []; timer = none }
      else (let timer_id = next_seq g in
          record {
            grouper = record g {
              seq = timer_id;
              groups =
                  insert key (record { timer_id = timer_id; msgs = group.msgs ++ msg ∷ [] })
                    g.groups;
            };
            flushed = [];
            timer = some (key, timer_id);
          })

  unfoldable pub add : ℕ → ℤ → Msg → AlbumGrouper Msg → Added Msg
  add task_id grouped_id msg g =
      if eqb task_id 0 || eqb_ℤ grouped_id (pos 0)
      then record { grouper = g; flushed = (msg ∷ []) ∷ []; timer = none }
      else add_to (album_key task_id grouped_id) msg g
