-- ===== src/Dedup/Replies.antt =====
-- What `Seen` answers, as a function of the entries that it holds.
use tgvive.Dedup.{
  key_eq, Deduper, prune, seen, drop_task, forget, prune_loop, DedupKey, DedupEntry, remove_entry,
  is_live, key_same_iff,
}
use tgvive.Dedup.Bounds.{prune_entries}
use tgvive.Prelude.Int.{ℤ, ◌≤ℤ◌, ltb_ℤ, pos, ◌<ℤ◌, leb_ℤ}
use tgvive.Prelude.{
  ℕ, List, ◌<◌, eqb, ◌≡◌, Option, ◌||◌, true, false, ◌∷◌, drop, arith, ◌↔◌, suc, some, [], none,
  refl, if◌then◌else◌, ◌==◌,
}
use tgvive.Prelude.Map.{Map, lookup, lookup-delete, lookup-delete_if}

is_live-remove_entry :
    (now t : ℤ) (ent : DedupEntry) (entries : Map DedupKey ℤ) (k : DedupKey)
    → now ≤ℤ t
    → ltb_ℤ now ent.exp ≡ false
    → is_live t (lookup k (remove_entry ent entries)) ≡ is_live t (lookup k entries)
unfolding remove_entry is_live
is_live-remove_entry now t ent entries k h e =
    ground (arith, lookup-delete k ent.key entries, key_same_iff ent.key k)

-- Pruning at one time removes nothing that is live at that time or later.
is_live-prune_loop :
    (now t : ℤ) (rest : List DedupEntry) (entries : Map DedupKey ℤ) (head : ℕ) (k : DedupKey)
    → now ≤ℤ t
    → is_live t (lookup k (prune_loop now rest entries head).0) ≡ is_live t (lookup k entries)
unfolding prune_loop
is_live-prune_loop now t [] entries head k h = refl
is_live-prune_loop now t (ent ∷ rest) entries head k h = ground (
  arith,
  is_live-prune_loop now t rest (remove_entry ent entries) (suc head) k,
  is_live-remove_entry now t ent entries k,
)

pub is_live-prune :
    (now t : ℤ) (d : Deduper) (k : DedupKey)
    → now ≤ℤ t
    → is_live t (lookup k (prune now d).entries) ≡ is_live t (lookup k d.entries)
is_live-prune now t d k h =
    rw (prune_entries now d) (is_live-prune_loop now t (drop d.head d.order) d.entries d.head k h)

-- The key that `Seen` looks up.
abbrev pub key_of : ℕ → ℤ → DedupKey
key_of task_id msg_id = record { task_id = task_id; msg_id = msg_id }

-- The guards of `Seen` and `Forget`, which let a message through.
abbrev pub IsKeyed : ℕ → ℤ → Type 0
IsKeyed task_id msg_id = (0 < task_id) × (pos 0 <ℤ msg_id)

pub keyed_guard :
    (task_id : ℕ) (msg_id : ℤ)
    → IsKeyed task_id msg_id
    → (eqb task_id 0 || leb_ℤ msg_id (pos 0)) ≡ false
keyed_guard task_id msg_id h = ground arith

pub seen-eq-is_live :
    (now : ℤ) (task_id : ℕ) (msg_id : ℤ) (d : Deduper)
    → IsKeyed task_id msg_id
    → (seen now task_id msg_id d).1 ≡ is_live now (lookup (key_of task_id msg_id) d.entries)
unfolding seen
seen-eq-is_live now task_id msg_id d h =
    rw (keyed_guard task_id msg_id h)
      (ground (arith, is_live-prune now now d (key_of task_id msg_id)))

is_live_iff :
    (now : ℤ) (o : Option ℤ) → (is_live now o ≡ true) ↔ ((x : ℤ) × (o ≡ some x) × (now <ℤ x))
unfolding is_live
is_live_iff now none = (λ e. cc, λ (x, e, l). cc)
is_live_iff now (some x) = (λ e. (x, refl, ground arith), λ (y, e, l). ground arith)

-- `Seen` answers true exactly when the map holds an entry for the message that expires later.
pub seen_iff :
    (now : ℤ) (task_id : ℕ) (msg_id : ℤ) (d : Deduper)
    → IsKeyed task_id msg_id
    → ((seen now task_id msg_id d).1 ≡ true)
      ↔ ((x : ℤ) × (lookup (key_of task_id msg_id) d.entries ≡ some x) × (now <ℤ x))
seen_iff now task_id msg_id d h = rw (seen-eq-is_live now task_id msg_id d h) (is_live_iff now _)

-- After `Forget`, `Seen` answers false for that message at any time; every other message gets the
-- answer that it got before.
pub seen-forget :
    (now : ℤ) (task_id j : ℕ) (msg_id i : ℤ) (d : Deduper)
    → IsKeyed task_id msg_id
    → IsKeyed j i
    → (seen now j i (forget task_id msg_id d)).1
      ≡ (if key_of task_id msg_id == key_of j i then false else (seen now j i d).1)
unfolding forget is_live
seen-forget now task_id j msg_id i d h k = ground (
  arith,
  seen-eq-is_live now j i (forget task_id msg_id d) k,
  seen-eq-is_live now j i d k,
  lookup-delete (key_of j i) (key_of task_id msg_id) d.entries,
  keyed_guard task_id msg_id h,
)

-- After `DropTask`, `Seen` answers false for every message of that task; the messages of the other
-- tasks get the answers that they got before.
pub seen-drop_task :
    (now : ℤ) (task_id j : ℕ) (i : ℤ) (d : Deduper)
    → 0 < task_id
    → IsKeyed j i
    → (seen now j i (drop_task task_id d)).1 ≡ (if eqb j task_id then false else (seen now j i d).1)
unfolding drop_task is_live
seen-drop_task now task_id j i d h k = ground (
  arith,
  seen-eq-is_live now j i (drop_task task_id d) k,
  seen-eq-is_live now j i d k,
  lookup-delete_if (key_of j i) (λ (k : DedupKey). eqb k.task_id task_id) d.entries,
)

-- A duplicate changes the cache by a pruning.
pub seen-pruned :
    (now : ℤ) (task_id : ℕ) (msg_id : ℤ) (d : Deduper)
    → IsKeyed task_id msg_id
    → (seen now task_id msg_id d).1 ≡ true
    → (seen now task_id msg_id d).0 ≡ prune now d
unfolding seen
seen-pruned now task_id msg_id d h e = ground (arith, keyed_guard task_id msg_id h)
