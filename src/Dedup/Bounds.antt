-- ===== src/Dedup/Bounds.antt =====
-- The cache stays within `maxKeys`, and every entry stays in the queue of expiries.
use tgvive.Dedup.{
  key_eq, Deduper, new_deduper, compact, prune, evict, mark, seen, drop_task, forget, prune_loop,
  DedupKey, DedupEntry, remove_entry, key_same, is_live, key_same_iff,
}
use tgvive.Dedup.Queue.{
  IsWaiting, prune_loop-IsWaiting, IsQueued, queue_entry, evict_loop-IsWaiting, evict_loop-bounded,
  length-remove_entry_le,
}
use tgvive.Prelude.Map.{
  lookup, Map, insert-IsMap, insert, IsMap, delete, delete_if, delete-IsMap, delete_if-IsMap,
  length-delete_le, length-delete_if_le, lookup-insert, lookup-delete, lookup-delete_if,
}
use tgvive.Prelude.{
  Bool-cases, ◌≡◌, ℕ, arith, ltb, drop, List, eqb, length, refl, ◌≤◌, length-append, ◌∷◌, inl, inr,
  [], drop-append_le, ◌&&◌, ◌++◌, ◌||◌, Bool, ◌/◌, some, suc, IsIn-append_right, here,
  IsIn-append_left,
}
use tgvive.Prelude.Int.{ℤ, pos, ◌≤ℤ◌, leb_ℤ}
use tgvive.Prelude.Int64.{◌+i◌}

pub record IsValid (d : Deduper) : Type 0 where
  pub waiting : IsWaiting d.order d.entries d.head
  pub bounded : pos (length d.entries) ≤ℤ d.max_keys
  pub positive : pos 1 ≤ℤ d.max_keys

-- A new cache is valid, whatever its arguments.
pub new_deduper-IsValid : (ttl max_keys : ℤ) → IsValid (new_deduper ttl max_keys)
unfolding new_deduper lookup
new_deduper-IsValid ttl max_keys = record {
  waiting = record { unique = tt; within = omega arith; queued = λ k x e. cc };
  bounded = ground arith;
  positive = ground arith;
}

abbrev Waits : Deduper → Type 0
Waits d = IsWaiting d.order d.entries d.head

compact-Waits : (d : Deduper) → Waits d → Waits (compact d)
unfolding compact
compact-Waits d w = elim (Bool-cases (ltb 2048 d.head && ltb (length d.order / 2) d.head)) [
  | inl q ↦ rw q (record { unique = w.unique; within = omega arith; queued = w.queued })
  | inr q ↦ rw q w
]

compact_entries : (d : Deduper) → (compact d).entries ≡ d.entries
unfolding compact
compact_entries d = ground arith

compact_max_keys : (d : Deduper) → (compact d).max_keys ≡ d.max_keys
unfolding compact
compact_max_keys d = ground arith

pub prune-Waits : (now : ℤ) (d : Deduper) → Waits d → Waits (prune now d)
unfolding prune
prune-Waits now d w =
    compact-Waits _ (prune_loop-IsWaiting now (drop d.head d.order) d.order d.entries d.head refl w)

pub prune_max_keys : (now : ℤ) (d : Deduper) → (prune now d).max_keys ≡ d.max_keys
unfolding prune
prune_max_keys now d = compact_max_keys _

pub prune_entries :
    (now : ℤ) (d : Deduper)
    → (prune now d).entries ≡ (prune_loop now (drop d.head d.order) d.entries d.head).0
unfolding prune
prune_entries now d = compact_entries _

length-prune_loop_le :
    (now : ℤ) (rest : List DedupEntry) (entries : Map DedupKey ℤ) (head : ℕ)
    → length (prune_loop now rest entries head).0 ≤ length entries
unfolding prune_loop
length-prune_loop_le now [] entries head = omega arith
length-prune_loop_le now (ent ∷ rest) entries head = ground (
  arith,
  length-remove_entry_le ent entries,
  length-prune_loop_le now rest (remove_entry ent entries) (suc head),
)

prune_bounded :
    (now : ℤ) (d : Deduper)
    → pos (length d.entries) ≤ℤ d.max_keys
    → pos (length (prune now d).entries) ≤ℤ (prune now d).max_keys
prune_bounded now d h =
    rw (prune_entries now d, prune_max_keys now d)
      (omega (arith, length-prune_loop_le now (drop d.head d.order) d.entries d.head))

pub prune-IsValid : (now : ℤ) (d : Deduper) → IsValid d → IsValid (prune now d)
prune-IsValid now d v = record {
  waiting = prune-Waits now d v.waiting;
  bounded = prune_bounded now d v.bounded;
  positive = rw (prune_max_keys now d) v.positive;
}

-- `evictLocked` brings a cache whose entries all wait within its bound.
evict-IsValid : (now : ℤ) (d : Deduper) → Waits d → pos 1 ≤ℤ d.max_keys → IsValid (evict now d)
unfolding evict
evict-IsValid now d w p = elim (Bool-cases (leb_ℤ (pos (length d.entries)) d.max_keys)) [
  | inl q ↦ rw q (record { waiting = w; bounded = ground arith; positive = p })
  | inr q ↦ rw q (
      prune-IsValid now _ (record {
        waiting =
            evict_loop-IsWaiting d.max_keys (drop d.head d.order) d.order d.entries d.head refl w;
        bounded =
            evict_loop-bounded d.max_keys (drop d.head d.order) d.entries d.head (omega arith)
              w.queued;
        positive = p;
      }))
]

IsQueued-insert :
    (k : DedupKey) (x : ℤ) (entries : Map DedupKey ℤ) (rest : List DedupEntry)
    → IsQueued entries rest
    → IsQueued (insert k x entries) (rest ++ queue_entry k x ∷ [])
IsQueued-insert k x entries rest h j y e = elim (Bool-cases (key_same k j)) [
  | inl q ↦
      IsIn-append_right rest (here (ground (arith, lookup-insert j k x entries, key_same_iff k j)))
  | inr q ↦
      IsIn-append_left (queue_entry k x ∷ []) (h j y (ground (arith, lookup-insert j k x entries)))
]

-- The cache with a key marked, before any eviction.
pub marked-IsWaiting :
    (key : DedupKey) (exp : ℤ) (d : Deduper)
    → IsWaiting d.order d.entries d.head
    → IsWaiting (d.order ++ queue_entry key exp ∷ []) (insert key exp d.entries) d.head
marked-IsWaiting key exp d w = record {
  unique = insert-IsMap key exp d.entries w.unique;
  within = omega (arith, length-append d.order (queue_entry key exp ∷ []), w.within);
  queued =
      rw (drop-append_le d.head d.order (queue_entry key exp ∷ []) w.within)
        (IsQueued-insert key exp d.entries (drop d.head d.order) w.queued);
}

mark-IsValid : (now : ℤ) (key : DedupKey) (d : Deduper) → IsValid d → IsValid (mark now key d)
unfolding mark
mark-IsValid now key d v =
    evict-IsValid now _ (marked-IsWaiting key (now +i d.ttl) d v.waiting) v.positive

-- `Seen` keeps the cache valid: within its bound, with each entry in the queue of expiries, at any
-- reading of the clock and on every branch.
pub seen-IsValid :
    (now : ℤ) (task_id : ℕ) (msg_id : ℤ) (d : Deduper)
    → IsValid d
    → IsValid (seen now task_id msg_id d).0
unfolding seen
seen-IsValid now task_id msg_id d v = elim (Bool-cases (eqb task_id 0 || leb_ℤ msg_id (pos 0))) [
  | inl q ↦ rw q v
  | inr q ↦
      let key : DedupKey = record { task_id = task_id; msg_id = msg_id } in
      elim (Bool-cases (is_live now (lookup key (prune now d).entries))) [
        | inl r ↦ rw (q, r) (prune-IsValid now d v)
        | inr r ↦ rw (q, r) (mark-IsValid now key (prune now d) (prune-IsValid now d v))
      ]
]

-- A cache that has lost entries is still valid.
smaller-IsValid :
    (d : Deduper) (entries : Map DedupKey ℤ)
    → IsValid d
    → IsMap entries
    → length entries ≤ length d.entries
    → ((k : DedupKey) (x : ℤ) → lookup k entries ≡ some x → lookup k d.entries ≡ some x)
    → IsValid (record d { entries = entries })
smaller-IsValid d entries v m l h = record {
  waiting = record {
    unique = m;
    within = v.waiting.within;
    queued = λ k x e. v.waiting.queued k x (h k x e);
  };
  bounded = omega (arith, v.bounded);
  positive = v.positive;
}

-- `Forget` keeps the cache valid.
pub forget-IsValid :
    (task_id : ℕ) (msg_id : ℤ) (d : Deduper) → IsValid d → IsValid (forget task_id msg_id d)
unfolding forget
forget-IsValid task_id msg_id d v =
    let key : DedupKey = record { task_id = task_id; msg_id = msg_id } in
    elim (Bool-cases (eqb task_id 0 || leb_ℤ msg_id (pos 0))) [
      | inl q ↦ rw q v
      | inr q ↦ rw q (
          smaller-IsValid d (delete key d.entries) v (delete-IsMap key d.entries v.waiting.unique)
            (length-delete_le key d.entries)
            (λ k x e. ground (arith, lookup-delete k key d.entries)))
    ]

-- `DropTask` keeps the cache valid.
pub drop_task-IsValid : (task_id : ℕ) (d : Deduper) → IsValid d → IsValid (drop_task task_id d)
unfolding drop_task
drop_task-IsValid task_id d v =
    let p : DedupKey → Bool = λ k. eqb k.task_id task_id in
    elim (Bool-cases (eqb task_id 0)) [
      | inl q ↦ rw q v
      | inr q ↦ rw q (
          smaller-IsValid d (delete_if p d.entries) v (delete_if-IsMap p d.entries v.waiting.unique)
            (length-delete_if_le p d.entries)
            (λ k x e. ground (arith, lookup-delete_if k p d.entries)))
    ]
