-- ===== src/Dedup/Keeping.antt =====
-- An entry of the cache and those behind it in the queue, through pruning and eviction.
use tgvive.Dedup.{
  key_eq, Deduper, prune, evict, mark, prune_loop, evict_loop, DedupKey, DedupEntry, compact,
  remove_entry, key_same_iff,
}
use tgvive.Dedup.Queue.{
  IsWaiting, IsQueued, drop_step, remove_entry-IsMap, IsQueued-remove_entry, queue_entry,
  IsQueued-nil,
}
use tgvive.Prelude.Int.{ℤ, pos, ◌≤ℤ◌, ltb_ℤ, leb_ℤ, ◌<ℤ◌}
use tgvive.Prelude.Map.{lookup, Map, IsMap, same_refl, lookup-delete, lookup-insert, delete}
use tgvive.Prelude.{
  List, drop, IsIn, ℕ, ◌≡◌, ◌∷◌, arith, refl, some, Bool-cases, [], length, ◌++◌, inl, ◌≤◌, inr,
  there, suc, here, none, true, ◌∙◌, subst, drop-append_le, ap, sym, length-append, append_assoc,
}
use tgvive.Dedup.Bounds.{IsValid, marked-IsWaiting}
use tgvive.Prelude.Int64.{◌+i◌}

-- What a pruned queue holds stood in the queue before.
IsIn-prune_loop :
    (now : ℤ) (rest order : List DedupEntry) (entries : Map DedupKey ℤ) (head : ℕ) (a : DedupEntry)
    → drop head order ≡ rest
    → IsIn a (drop (prune_loop now rest entries head).1 order)
    → IsIn a (drop head order)
unfolding prune_loop
IsIn-prune_loop now [] order entries head a e m = m
IsIn-prune_loop now (ent ∷ rest) order entries head a e m = elim (Bool-cases (ltb_ℤ now ent.exp)) [
  | inl q ↦ rw q at m
  | inr q ↦ rw e (
      there (
        rw (drop_step head order e).0 at (
          IsIn-prune_loop now rest order (remove_entry ent entries) (suc head) a
            (drop_step head order e).0 (rw q at m))))
]

compact_queue : (d : Deduper) → drop (compact d).head (compact d).order ≡ drop d.head d.order
unfolding compact
compact_queue d = ground arith

pub IsIn-prune :
    (now : ℤ) (d : Deduper) (a : DedupEntry)
    → IsIn a (drop (prune now d).head (prune now d).order)
    → IsIn a (drop d.head d.order)
unfolding prune
IsIn-prune now d a m =
    IsIn-prune_loop now (drop d.head d.order) d.order d.entries d.head a refl
      (rw compact_queue at m)

length-delete_absent : (k : DedupKey) (m : Map DedupKey ℤ) → lookup k m ≡ none → delete k m ≡ m
unfolding lookup delete
length-delete_absent k [] e = refl
length-delete_absent k ((j, x) ∷ m) e = ground (arith, length-delete_absent k m)

-- Taking a key out of a map takes out one entry at most.
length-delete_ge :
    (k : DedupKey) (m : Map DedupKey ℤ) → IsMap m → length m ≤ suc (length (delete k m))
unfolding lookup delete
length-delete_ge k [] h = omega arith
length-delete_ge k ((j, x) ∷ m) h =
    ground (arith, length-delete_ge k m h.1, length-delete_absent k m, key_same_iff j k, h.0)

length-remove_entry_ge :
    (ent : DedupEntry) (entries : Map DedupKey ℤ)
    → IsMap entries
    → length entries ≤ suc (length (remove_entry ent entries))
unfolding remove_entry
length-remove_entry_ge ent entries u = ground (arith, length-delete_ge ent.key entries u)

-- The queue is as long as the map at least.
queue_covers :
    (queue : List DedupEntry) (entries : Map DedupKey ℤ)
    → IsMap entries
    → IsQueued entries queue
    → length entries ≤ length queue
queue_covers [] entries u h = rw (IsQueued-nil entries h) (omega arith)
queue_covers (ent ∷ rest) entries u h =
    let ih =
      queue_covers rest (remove_entry ent entries) (remove_entry-IsMap ent entries u)
        (IsQueued-remove_entry ent rest entries h) in
    let l = length-remove_entry_ge ent entries u in omega (arith, ih, l)

remove_entry_keeps :
    (ent a : DedupEntry) (entries : Map DedupKey ℤ)
    → ¬ (a ≡ ent)
    → lookup a.key entries ≡ some a.exp
    → lookup a.key (remove_entry ent entries) ≡ some a.exp
unfolding remove_entry
remove_entry_keeps ent a entries n h =
    ground (arith, lookup-delete a.key ent.key entries, key_same_iff ent.key a.key)

-- What stays of a queue and its map around an entry `a`, behind which there are `back`.
abbrev IsAround : DedupEntry → List DedupEntry → List DedupEntry → Map DedupKey ℤ × ℕ → Type 0
IsAround a back order (entries, head) =
    (front : List DedupEntry) × (drop head order ≡ front ++ a ∷ back)
    × ¬ (IsIn a front)
    × (lookup a.key entries ≡ some a.exp)

prune_loop_keeps :
    (now : ℤ) (front : List DedupEntry) (a : DedupEntry) (back order : List DedupEntry)
    (entries : Map DedupKey ℤ) (head : ℕ)
    → drop head order ≡ front ++ a ∷ back
    → now <ℤ a.exp
    → ¬ (IsIn a front)
    → lookup a.key entries ≡ some a.exp
    → IsAround a back order (prune_loop now (front ++ a ∷ back) entries head)
unfolding prune_loop
prune_loop_keeps now [] a back order entries head e l n h =
    let q : ltb_ℤ now a.exp ≡ true = ground arith in rw q ([], e, n, h)
prune_loop_keeps now (ent ∷ front) a back order entries head e l n h =
    elim (Bool-cases (ltb_ℤ now ent.exp)) [
      | inl q ↦ rw q (ent ∷ front, e, n, h)
      | inr q ↦ rw q (
          prune_loop_keeps now front a back order (remove_entry ent entries) (suc head)
            (drop_step head order e).0 l (λ m. n (there m))
            (remove_entry_keeps ent a entries (λ i. n (here i)) h))
    ]

-- The loop of `evictLocked` does not reach `a` while the bound has room for it and those behind it.
evict_loop_keeps :
    (max : ℤ) (front : List DedupEntry) (a : DedupEntry) (back order : List DedupEntry)
    (entries : Map DedupKey ℤ) (head : ℕ)
    → drop head order ≡ front ++ a ∷ back
    → pos (suc (length back)) ≤ℤ max
    → IsMap entries
    → IsQueued entries (front ++ a ∷ back)
    → ¬ (IsIn a front)
    → lookup a.key entries ≡ some a.exp
    → IsAround a back order (evict_loop max (front ++ a ∷ back) entries head)
unfolding evict_loop
evict_loop_keeps max [] a back order entries head e p u q n h =
    let c = queue_covers (a ∷ back) entries u q in
    let r : leb_ℤ (pos (length entries)) max ≡ true = ground (arith, c) in rw r ([], e, n, h)
evict_loop_keeps max (ent ∷ front) a back order entries head e p u q n h =
    elim (Bool-cases (leb_ℤ (pos (length entries)) max)) [
      | inl r ↦ rw r (ent ∷ front, e, n, h)
      | inr r ↦ rw r (
          evict_loop_keeps max front a back order (remove_entry ent entries) (suc head)
            (drop_step head order e).0 p (remove_entry-IsMap ent entries u)
            (IsQueued-remove_entry ent (front ++ a ∷ back) entries q) (λ m. n (there m))
            (remove_entry_keeps ent a entries (λ i. n (here i)) h))
    ]

-- The entry is in the cache, with as many as `n` behind it in the queue.
abbrev pub IsKept : DedupEntry → ℕ → Deduper → Type 0
IsKept a n d =
    (back : List DedupEntry) × (length back ≤ n) × IsAround a back d.order (d.entries, d.head)

compact_entries : (d : Deduper) → (compact d).entries ≡ d.entries
unfolding compact
compact_entries d = ground arith

compact-IsKept : (a : DedupEntry) (n : ℕ) (d : Deduper) → IsKept a n d → IsKept a n (compact d)
compact-IsKept a n d (back, l, (front, e, m, h)) =
    (back, l, (front, compact_queue d ∙ e, m, ap (lookup a.key) (compact_entries d) ∙ h))

pub prune-IsKept :
    (now : ℤ) (a : DedupEntry) (n : ℕ) (d : Deduper)
    → now <ℤ a.exp
    → IsKept a n d
    → IsKept a n (prune now d)
unfolding prune
prune-IsKept now a n d l (back, b, (front, e, m, h)) = compact-IsKept a n _ (
  back,
  b,
  subst (λ q. IsAround a back d.order (prune_loop now q d.entries d.head)) (sym e)
      (prune_loop_keeps now front a back d.order d.entries d.head e l m h),
)

evict-IsKept :
    (now : ℤ) (a : DedupEntry) (n : ℕ) (d : Deduper)
    → IsWaiting d.order d.entries d.head
    → pos (suc n) ≤ℤ d.max_keys
    → now <ℤ a.exp
    → IsKept a n d
    → IsKept a n (evict now d)
unfolding evict
evict-IsKept now a n d w p l (back, b, (front, e, m, h)) =
    elim (Bool-cases (leb_ℤ (pos (length d.entries)) d.max_keys)) [
      | inl r ↦ rw r (back, b, (front, e, m, h))
      | inr r ↦ rw r (
          prune-IsKept now a n _ l (
            back,
            b,
            subst (λ q. IsAround a back d.order (evict_loop d.max_keys q d.entries d.head)) (sym e)
                (evict_loop_keeps d.max_keys front a back d.order d.entries d.head e
                  (omega (arith, p, b)) w.unique (subst (IsQueued d.entries) e w.queued) m h),
          ))
    ]

-- The marking of another key puts one more entry behind it.
pub mark-IsKept :
    (now : ℤ) (key : DedupKey) (a : DedupEntry) (n : ℕ) (d : Deduper)
    → IsWaiting d.order d.entries d.head
    → pos (suc (suc n)) ≤ℤ d.max_keys
    → now <ℤ a.exp
    → ¬ (key ≡ a.key)
    → IsKept a n d
    → IsKept a (suc n) (mark now key d)
unfolding mark
mark-IsKept now key a n d w p l k (back, b, (front, e, m, h)) =
    let new = queue_entry key (now +i d.ttl) in
    evict-IsKept now a (suc n) _ (marked-IsWaiting key (now +i d.ttl) d w) p l (
      back ++ new ∷ [],
      omega (arith, b, length-append back (new ∷ [])),
      (
        front,
        drop-append_le d.head d.order (new ∷ []) w.within
            ∙ ap (λ q. q ++ new ∷ []) e
            ∙ append_assoc front (a ∷ back) (new ∷ []),
        m,
        ground
            (arith, lookup-insert a.key key (now +i d.ttl) d.entries, key_same_iff key a.key, k, h),
      ),
    )

-- A marking itself.
pub marked-IsKept :
    (now : ℤ) (key : DedupKey) (d : Deduper)
    → IsValid d
    → ¬ (IsIn (queue_entry key (now +i d.ttl)) (drop d.head d.order))
    → now <ℤ now +i d.ttl
    → IsKept (queue_entry key (now +i d.ttl)) 0 (mark now key d)
unfolding mark
marked-IsKept now key d v n l =
    let a = queue_entry key (now +i d.ttl) in
    evict-IsKept now a 0 _ (marked-IsWaiting key (now +i d.ttl) d v.waiting) v.positive l (
      [],
      omega arith,
      (
        drop d.head d.order,
        drop-append_le d.head d.order (a ∷ []) v.waiting.within,
        n,
        ground (arith, lookup-insert key key (now +i d.ttl) d.entries, same_refl key),
      ),
    )
