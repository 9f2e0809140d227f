-- ===== src/Dedup/Tests.antt =====
-- Runs of the cache of internal/engine/dedup.go.
use tgvive.Dedup.{
  Deduper, new_deduper, seen, forget, DedupEntry, prune, key_eq, prune_loop, compact, evict,
  evict_loop, is_live, mark, remove_entry,
}
use tgvive.Prelude.Int.{pos, ◌+ℤ◌}
use tgvive.Dedup.Bounds.{IsValid, seen-IsValid, forget-IsValid, new_deduper-IsValid}
use tgvive.Prelude.Int64.{◌+i◌, wrap64}
use tgvive.Prelude.{◌≡◌, IsIn, false, true, [], arith, refl, List, ◌∷◌}
use tgvive.Dedup.Recall.{seen_again, SeenCall, see_all, call_at}
use tgvive.Prelude.Map.{lookup, insert, delete}

abbrev small : Deduper
small = (seen (pos 100) 1 (pos 7) (new_deduper (pos 50) (pos 2))).0

-- Three messages in a cache of two: the oldest is evicted.
evicts_oldest :
    let d = (seen (pos 102) 1 (pos 9) (seen (pos 101) 1 (pos 8) small).0).0 in
    ((seen (pos 103) 1 (pos 7) d).1 ≡ false) × ((seen (pos 103) 1 (pos 9) d).1 ≡ true)
unfolding seen new_deduper prune prune_loop compact evict evict_loop is_live mark remove_entry
    lookup insert delete ◌+i◌ ◌+ℤ◌ wrap64
evicts_oldest = (refl, refl)

small-IsValid : IsValid small
small-IsValid = seen-IsValid (pos 100) 1 (pos 7) _ (new_deduper-IsValid (pos 50) (pos 2))

forget-IsValid_example : IsValid (forget 1 (pos 7) small)
forget-IsValid_example = forget-IsValid 1 (pos 7) small small-IsValid

not_queued : {a : DedupEntry} → ¬ (IsIn a [])
not_queued m = elim m [ ]

-- A cache of three, and two messages that come after the first.
abbrev three_keys : Deduper
three_keys = new_deduper (pos 50) (pos 3)

abbrev two_calls : List SeenCall
two_calls = call_at (pos 101) 1 (pos 8) ∷ call_at (pos 102) 2 (pos 9) ∷ []

seen_again_example :
    (seen (pos 149) 1 (pos 7) (see_all two_calls (seen (pos 100) 1 (pos 7) three_keys).0)).1 ≡ true
unfolding seen new_deduper prune prune_loop compact evict evict_loop is_live mark remove_entry
    lookup insert delete ◌+i◌ ◌+ℤ◌ wrap64
seen_again_example =
    seen_again (pos 100) (pos 149) 1 (pos 7) three_keys two_calls
      (new_deduper-IsValid (pos 50) (pos 3)) (omega arith, omega arith) not_queued refl
      (omega arith) (omega arith, (omega arith, tt)) (omega arith) (omega arith)
