-- ===== src/Dedup/Queue.antt =====
-- The queue of expiries holds every entry of the map, and the loops keep that.
use tgvive.Prelude.{
  ◌≡◌, List, ◌∷◌, some, arith, IsIn, here, there, ℕ, [], drop, suc, subst, Bool-cases, refl, sym,
  ◌≤◌, inl, length, inr, zero,
}
use tgvive.Prelude.Int.{ℤ, pos, ltb_ℤ, leb_ℤ, ◌≤ℤ◌}
use tgvive.Prelude.Map.{
  Map, lookup, lookup-delete, IsMap, delete-IsMap, same_refl, length-delete_le,
}
use tgvive.Dedup.{DedupKey, DedupEntry, key_eq, remove_entry, prune_loop, evict_loop}

abbrev pub queue_entry : DedupKey → ℤ → DedupEntry
queue_entry k x = record { key = k; exp = x }

-- Each entry of the map waits in the queue.
abbrev pub IsQueued : Map DedupKey ℤ → List DedupEntry → Type 0
IsQueued entries rest =
    (k : DedupKey) (x : ℤ) → lookup k entries ≡ some x → IsIn (queue_entry k x) rest

pub IsIn-tail {ℓ} : {A : Type ℓ} {a b : A} {xs : List A} → IsIn a (b ∷ xs) → ¬ (a ≡ b) → IsIn a xs
IsIn-tail (here e) n = absurd (n e)
IsIn-tail (there m) n = m

-- Removing a queue element takes out the pair that it names, and no other.
pub lookup-remove_entry :
    (ent : DedupEntry) (entries : Map DedupKey ℤ) (k : DedupKey) (x : ℤ)
    → lookup k (remove_entry ent entries) ≡ some x
    → (lookup k entries ≡ some x) × ¬ (queue_entry k x ≡ ent)
unfolding remove_entry
lookup-remove_entry ent entries k x h = ground (arith, lookup-delete k ent.key entries)

pub remove_entry-IsMap :
    (ent : DedupEntry) (entries : Map DedupKey ℤ) → IsMap entries → IsMap (remove_entry ent entries)
unfolding remove_entry
remove_entry-IsMap ent entries h = ground (arith, delete-IsMap ent.key entries h)

pub length-remove_entry_le :
    (ent : DedupEntry) (entries : Map DedupKey ℤ)
    → length (remove_entry ent entries) ≤ length entries
unfolding remove_entry
length-remove_entry_le ent entries = ground (arith, length-delete_le ent.key entries)

pub IsQueued-remove_entry :
    (ent : DedupEntry) (rest : List DedupEntry) (entries : Map DedupKey ℤ)
    → IsQueued entries (ent ∷ rest)
    → IsQueued (remove_entry ent entries) rest
IsQueued-remove_entry ent rest entries h k x e =
    let (f, n) = lookup-remove_entry ent entries k x e in IsIn-tail (h k x f) n

-- What holds between two turns of a loop over `order[head:]`.
pub record IsWaiting (order : List DedupEntry) (entries : Map DedupKey ℤ) (head : ℕ) : Type 0 where
  pub unique : IsMap entries
  pub within : head ≤ length order
  pub queued : IsQueued entries (drop head order)

pub drop_step {ℓ} :
    {A : Type ℓ} {a : A} {rest : List A} (n : ℕ) (xs : List A)
    → drop n xs ≡ a ∷ rest
    → (drop (suc n) xs ≡ rest) × (suc n ≤ length xs)
drop_step zero [] h = cc
drop_step zero (x ∷ xs) h = (cc, omega arith)
drop_step (suc n) [] h = cc
drop_step (suc n) (x ∷ xs) h = let (e, l) = drop_step n xs h in (e, omega arith)

step-IsWaiting :
    (ent : DedupEntry) (rest order : List DedupEntry) (entries : Map DedupKey ℤ) (head : ℕ)
    → drop head order ≡ ent ∷ rest
    → IsWaiting order entries head
    → IsWaiting order (remove_entry ent entries) (suc head)
step-IsWaiting ent rest order entries head e w =
    let (e', l) = drop_step head order e in
    record {
      unique = remove_entry-IsMap ent entries w.unique;
      within = l;
      queued =
          subst (IsQueued (remove_entry ent entries)) (sym e')
            (IsQueued-remove_entry ent rest entries (subst (IsQueued entries) e w.queued));
    }

pub prune_loop-IsWaiting :
    (now : ℤ) (rest order : List DedupEntry) (entries : Map DedupKey ℤ) (head : ℕ)
    → drop head order ≡ rest
    → IsWaiting order entries head
    → let r = prune_loop now rest entries head in IsWaiting order r.0 r.1
unfolding prune_loop
prune_loop-IsWaiting now [] order entries head e w = w
prune_loop-IsWaiting now (ent ∷ rest) order entries head e w =
    elim (Bool-cases (ltb_ℤ now ent.exp)) [
      | inl q ↦ rw q w
      | inr q ↦ rw q (
          prune_loop-IsWaiting now rest order (remove_entry ent entries) (suc head)
            (drop_step head order e).0 (step-IsWaiting ent rest order entries head e w))
    ]

pub evict_loop-IsWaiting :
    (max : ℤ) (rest order : List DedupEntry) (entries : Map DedupKey ℤ) (head : ℕ)
    → drop head order ≡ rest
    → IsWaiting order entries head
    → let r = evict_loop max rest entries head in IsWaiting order r.0 r.1
unfolding evict_loop
evict_loop-IsWaiting max [] order entries head e w = w
evict_loop-IsWaiting max (ent ∷ rest) order entries head e w =
    elim (Bool-cases (leb_ℤ (pos (length entries)) max)) [
      | inl q ↦ rw q w
      | inr q ↦ rw q (
          evict_loop-IsWaiting max rest order (remove_entry ent entries) (suc head)
            (drop_step head order e).0 (step-IsWaiting ent rest order entries head e w))
    ]

-- A map with an empty queue is empty, so the loop ends within the bound.
pub IsQueued-nil : (entries : Map DedupKey ℤ) → IsQueued entries [] → entries ≡ []
unfolding lookup
IsQueued-nil [] h = refl
IsQueued-nil ((k, x) ∷ m) h = elim (h k x (rw (same_refl k))) [ ]

pub evict_loop-bounded :
    (max : ℤ) (rest : List DedupEntry) (entries : Map DedupKey ℤ) (head : ℕ)
    → pos 0 ≤ℤ max
    → IsQueued entries rest
    → pos (length (evict_loop max rest entries head).0) ≤ℤ max
unfolding evict_loop
evict_loop-bounded max [] entries head p h = rw (IsQueued-nil entries h) p
evict_loop-bounded max (ent ∷ rest) entries head p h =
    elim (Bool-cases (leb_ℤ (pos (length entries)) max)) [
      | inl q ↦ rw q (ground arith)
      | inr q ↦ rw q (
          evict_loop-bounded max rest (remove_entry ent entries) (suc head) p
            (IsQueued-remove_entry ent rest entries h))
    ]

-- Pairs that a loop leaves in the map were there before.
pub lookup-prune_loop :
    (now : ℤ) (rest : List DedupEntry) (entries : Map DedupKey ℤ) (head : ℕ) (k : DedupKey) (x : ℤ)
    → lookup k (prune_loop now rest entries head).0 ≡ some x
    → lookup k entries ≡ some x
unfolding prune_loop
lookup-prune_loop now [] entries head k x h = h
lookup-prune_loop now (ent ∷ rest) entries head k x h = ground (
  arith,
  lookup-prune_loop now rest (remove_entry ent entries) (suc head) k x,
  lookup-remove_entry ent entries k x,
)
