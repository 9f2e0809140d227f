-- ===== src/Dedup.antt =====
-- internal/engine/dedup.go: the cache of recently seen messages. A method takes the clock's reading,
-- `time.Now().UnixNano()`, as an argument; the mutex makes each method one step. `order[head:]` is
-- what is left of the queue of expiries.
pub mod Queue
pub mod Bounds
pub mod Replies
pub mod Keeping
pub mod Recall
mod Tests
use tgvive.Prelude.{
  ℕ, suc, ◌+◌, ◌/◌, ◌≡◌, ◌↔◌, Bool, true, false, ◌&&◌, ◌||◌, Option, none, some, List, [], ◌∷◌,
  ◌++◌, arith, ltb, eqb, length, drop, if◌then◌else◌, Comparable, ◌==◌, eqb_iff,
}
use tgvive.Prelude.Int.{ℤ, pos, ltb_ℤ, leb_ℤ, eqb_ℤ, eqb_ℤ_iff}
use tgvive.Prelude.Int64.{◌+i◌}
use tgvive.Prelude.Map.{Map, lookup, insert, delete, delete_if}

pub record DedupKey : Type 0 where
  pub task_id : ℕ
  pub msg_id : ℤ

pub record DedupEntry : Type 0 where
  pub key : DedupKey
  pub exp : ℤ

abbrev pub key_same : DedupKey → DedupKey → Bool
key_same a b = eqb a.task_id b.task_id && eqb_ℤ a.msg_id b.msg_id

pub key_same_iff : (a b : DedupKey) → (key_same a b ≡ true) ↔ (a ≡ b)
key_same_iff a b = ground (arith, eqb_ℤ_iff a.msg_id b.msg_id)

instance abbrev pub key_eq : Comparable DedupKey
key_eq = record { same = key_same; same_iff = key_same_iff }

pub record Deduper : Type 0 where
  pub ttl : ℤ
  pub max_keys : ℤ
  pub entries : Map DedupKey ℤ
  pub order : List DedupEntry
  pub head : ℕ

-- Ten minutes in nanoseconds.
abbrev default_ttl : ℤ
default_ttl = pos 600000000000

abbrev default_max_keys : ℤ
default_max_keys = pos 50000

unfoldable pub new_deduper : ℤ → ℤ → Deduper
new_deduper ttl max_keys = record {
  ttl = if leb_ℤ ttl (pos 0) then default_ttl else ttl;
  max_keys = if leb_ℤ max_keys (pos 0) then default_max_keys else max_keys;
  entries = [];
  order = [];
  head = 0;
}

-- `if cur, ok := d.entries[ent.key]; ok && cur == ent.exp { delete(d.entries, ent.key) }`
pub remove_entry : DedupEntry → Map DedupKey ℤ → Map DedupKey ℤ
remove_entry ent entries = elim (lookup ent.key entries) [
  | some cur ↦ if eqb_ℤ cur ent.exp then delete ent.key entries else entries
  | none ↦ entries
]

-- The loop of `pruneLocked` over `order[head:]`.
pub prune_loop : ℤ → List DedupEntry → Map DedupKey ℤ → ℕ → Map DedupKey ℤ × ℕ
prune_loop now [] entries head = (entries, head)
prune_loop now (ent ∷ rest) entries head =
    if ltb_ℤ now ent.exp
    then (entries, head)
    else prune_loop now rest (remove_entry ent entries) (suc head)

pub compact : Deduper → Deduper
compact d =
    if ltb 2048 d.head && ltb (length d.order / 2) d.head
    then record d { order = drop d.head d.order; head = 0 }
    else d

pub prune : ℤ → Deduper → Deduper
prune now d =
    let (entries, head) = prune_loop now (drop d.head d.order) d.entries d.head in
    compact (record d { entries = entries; head = head })

-- The loop of `evictLocked` over `order[head:]`.
pub evict_loop : ℤ → List DedupEntry → Map DedupKey ℤ → ℕ → Map DedupKey ℤ × ℕ
evict_loop max_keys [] entries head = (entries, head)
evict_loop max_keys (ent ∷ rest) entries head =
    if leb_ℤ (pos (length entries)) max_keys
    then (entries, head)
    else evict_loop max_keys rest (remove_entry ent entries) (suc head)

pub evict : ℤ → Deduper → Deduper
evict now d =
    if leb_ℤ (pos (length d.entries)) d.max_keys
    then d
    else (let (entries, head) = evict_loop d.max_keys (drop d.head d.order) d.entries d.head in
        prune now (record d { entries = entries; head = head }))

-- `prev, ok := d.entries[key]; ok && prev > now`
pub is_live : ℤ → Option ℤ → Bool
is_live now none = false
is_live now (some prev) = ltb_ℤ now prev

-- The part of `Seen` that marks a key.
pub mark : ℤ → DedupKey → Deduper → Deduper
mark now key d =
    let exp = now +i d.ttl in
    evict now (record d {
      entries = insert key exp d.entries;
      order = d.order ++ record { key = key; exp = exp } ∷ [];
    })

pub seen : ℤ → ℕ → ℤ → Deduper → Deduper × Bool
seen now task_id msg_id d =
    if eqb task_id 0 || leb_ℤ msg_id (pos 0)
    then (d, false)
    else (let key : DedupKey = record { task_id = task_id; msg_id = msg_id } in
        let d' = prune now d in
        if is_live now (lookup key d'.entries) then (d', true) else (mark now key d', false))

pub drop_task : ℕ → Deduper → Deduper
drop_task task_id d =
    if eqb task_id 0
    then d
    else record d { entries = delete_if (λ k. eqb k.task_id task_id) d.entries }

pub forget : ℕ → ℤ → Deduper → Deduper
forget task_id msg_id d =
    if eqb task_id 0 || leb_ℤ msg_id (pos 0)
    then d
    else record d { entries = delete (record { task_id = task_id; msg_id = msg_id }) d.entries }
