-- ===== src/Dedup/Recall.antt =====
-- A message that `Seen` has marked, and the calls of `Seen` after that.
use tgvive.Dedup.{key_eq, Deduper, prune, evict, mark, seen, DedupKey, DedupEntry, compact, is_live}
use tgvive.Dedup.Queue.{queue_entry}
use tgvive.Prelude.Int.{ℤ, pos, ◌≤ℤ◌, leb_ℤ, ◌<ℤ◌}
use tgvive.Prelude.Map.{lookup, insert}
use tgvive.Prelude.{
  List, drop, IsIn, ℕ, ◌≡◌, ◌∷◌, arith, Bool-cases, [], length, ◌++◌, inl, inr, suc, true, ◌∙◌,
  subst, false, eqb, ◌+◌, All, ◌||◌,
}
use tgvive.Dedup.Bounds.{IsValid, prune-IsValid, prune_max_keys, seen-IsValid}
use tgvive.Dedup.Replies.{IsKeyed, key_of, seen-eq-is_live, keyed_guard}
use tgvive.Prelude.Int64.{◌+i◌}
use tgvive.Dedup.Keeping.{IsKept, prune-IsKept, marked-IsKept, mark-IsKept, IsIn-prune}

more_behind : (a : DedupEntry) (n : ℕ) (d : Deduper) → IsKept a n d → IsKept a (suc n) d
more_behind a n d (back, b, rest) = (back, omega (arith, b), rest)

-- A key that is marked anew is not that of a live entry.
not_same :
    (now : ℤ) (key : DedupKey) (a : DedupEntry) (n : ℕ) (d : Deduper)
    → now <ℤ a.exp
    → IsKept a n d
    → is_live now (lookup key d.entries) ≡ false
    → ¬ (key ≡ a.key)
unfolding is_live
not_same now key a n d l (back, b, (front, q, m, h)) r e = ground (arith, rw e at r, h)

evict_max_keys : (now : ℤ) (d : Deduper) → (evict now d).max_keys ≡ d.max_keys
unfolding evict prune compact
evict_max_keys now d = ground arith

seen_max_keys :
    (now : ℤ) (task_id : ℕ) (msg_id : ℤ) (d : Deduper)
    → (seen now task_id msg_id d).0.max_keys ≡ d.max_keys
unfolding seen mark
seen_max_keys now task_id msg_id d = ground (
  arith,
  prune_max_keys now d,
  evict_max_keys now (record (prune now d) {
    entries = insert (key_of task_id msg_id) (now +i (prune now d).ttl) (prune now d).entries;
    order =
        (prune now d).order ++ queue_entry (key_of task_id msg_id) (now +i (prune now d).ttl) ∷ [];
  }),
)

-- A call of `Seen` for any message before the entry's expiry.
seen-IsKept :
    (now : ℤ) (task_id : ℕ) (msg_id : ℤ) (a : DedupEntry) (n : ℕ) (d : Deduper)
    → IsValid d
    → pos (suc (suc n)) ≤ℤ d.max_keys
    → now <ℤ a.exp
    → IsKept a n d
    → IsKept a (suc n) (seen now task_id msg_id d).0
unfolding seen is_live
seen-IsKept now task_id msg_id a n d v p l kept =
    let more = λ (x : Deduper) (k : IsKept a n x). more_behind a n x k in
    let key = key_of task_id msg_id in
    let pruned = prune-IsKept now a n d l kept in
    elim (Bool-cases (eqb task_id 0 || leb_ℤ msg_id (pos 0))) [
      | inl q ↦ rw q (more d kept)
      | inr q ↦ elim (Bool-cases (is_live now (lookup key (prune now d).entries))) [
        | inl r ↦ rw (q, r) (more (prune now d) pruned)
        | inr r ↦
            rw (q, r)
              (mark-IsKept now key a n (prune now d) (prune-IsValid now d v).waiting
                (rw (prune_max_keys now d) p) l
                (λ e. not_same now key a n (prune now d) l pruned r e) pruned)
      ]
    ]

-- A call of `Seen`: the clock, the task and the message.
pub data SeenCall : Type 0 where
  call_at : ℤ → ℕ → ℤ → SeenCall

unfoldable pub see_all : List SeenCall → Deduper → Deduper
see_all [] d = d
see_all (call_at now task_id msg_id ∷ calls) d = see_all calls (seen now task_id msg_id d).0

abbrev pub IsBefore : ℤ → SeenCall → Type 0
IsBefore exp (call_at now task_id msg_id) = now <ℤ exp

see_all-IsKept :
    (calls : List SeenCall) (a : DedupEntry) (n : ℕ) (d : Deduper)
    → IsValid d
    → pos (suc (n + length calls)) ≤ℤ d.max_keys
    → All (IsBefore a.exp) calls
    → IsKept a n d
    → IsKept a (n + length calls) (see_all calls d)
unfolding see_all
see_all-IsKept [] a n d v p l k = subst (λ m. IsKept a m d) (omega arith) k
see_all-IsKept (call_at now task_id msg_id ∷ calls) a n d v p l k =
    let d' = (seen now task_id msg_id d).0 in
    let e : suc n + length calls ≡ n + suc (length calls) = omega arith in
    subst (λ m. IsKept a m (see_all calls d')) e
      (see_all-IsKept calls a (suc n) d' (seen-IsValid now task_id msg_id d v)
        (rw (seen_max_keys now task_id msg_id d) (omega (arith, p))) l.1
        (seen-IsKept now task_id msg_id a n d v (omega (arith, p)) l.0 k))

kept_live :
    (t : ℤ) (a : DedupEntry) (n : ℕ) (d : Deduper)
    → t <ℤ a.exp
    → IsKept a n d
    → is_live t (lookup a.key d.entries) ≡ true
unfolding is_live
kept_live t a n d l (back, b, (front, e, m, h)) = rw h (ground arith)

prune_ttl : (now : ℤ) (d : Deduper) → (prune now d).ttl ≡ d.ttl
unfolding prune compact
prune_ttl now d = ground arith

seen_marks :
    (now : ℤ) (task_id : ℕ) (msg_id : ℤ) (d : Deduper)
    → IsKeyed task_id msg_id
    → (seen now task_id msg_id d).1 ≡ false
    → (seen now task_id msg_id d).0 ≡ mark now (key_of task_id msg_id) (prune now d)
unfolding seen
seen_marks now task_id msg_id d h e = ground (arith, keyed_guard task_id msg_id h)

-- After `Seen` has answered false for a message, and so marked it, and after any further calls of `Seen`
-- for any messages, before the marking expires and fewer than the cache has keys, it answers true for
-- the message at each time before the marking expires. The queue of the expiries must not hold the very
-- same expiry of the message before, which takes a `Forget` of it within the clock's tick.
pub seen_again :
    (now t : ℤ) (task_id : ℕ) (msg_id : ℤ) (d : Deduper) (calls : List SeenCall)
    → IsValid d
    → IsKeyed task_id msg_id
    → ¬ (IsIn (queue_entry (key_of task_id msg_id) (now +i d.ttl)) (drop d.head d.order))
    → (seen now task_id msg_id d).1 ≡ false
    → pos (length calls) <ℤ d.max_keys
    → All (IsBefore (now +i d.ttl)) calls
    → now <ℤ now +i d.ttl
    → t <ℤ now +i d.ttl
    → (seen t task_id msg_id (see_all calls (seen now task_id msg_id d).0)).1 ≡ true
seen_again now t task_id msg_id d calls v h n e p b s l =
    let key = key_of task_id msg_id in
    let a = queue_entry key (now +i d.ttl) in
    let d' = (seen now task_id msg_id d).0 in
    let first : IsKept a 0 d' = rw (seen_marks now task_id msg_id d h e) (
      subst (λ x. IsKept (queue_entry key (now +i x)) 0 (mark now key (prune now d)))
        (prune_ttl now d)
        (marked-IsKept now key (prune now d) (prune-IsValid now d v)
          (λ i. n (rw (prune_ttl now d) at (IsIn-prune now d _ i))) (rw (prune_ttl now d) s))) in
    seen-eq-is_live t task_id msg_id (see_all calls d') h
    ∙ kept_live t a (0 + length calls) (see_all calls d') l (
        see_all-IsKept calls a 0 d' (seen-IsValid now task_id msg_id d v)
          (rw (seen_max_keys now task_id msg_id d) (omega (arith, p))) b first)
