-- ===== src/Mapping.antt =====
-- internal/engine/msg_mapping_cache.go: the cache of the least recently used message IDs, from a
-- message's ID in the source to its ID in the target. The linked list and the map of its elements are
-- one list of entries, the most recent first: `c.m[src]` is the entry of `src` in the list, which the
-- theorems' invariant keeps single. A Go int has 64 bits, and none is computed with.
pub mod Recent
pub mod Size
pub mod Runs
mod Tests
use tgvive.Prelude.Int.{ℤ, leb_ℤ, eqb_ℤ, pos, ltb_ℤ}
use tgvive.Prelude.{
  List, if◌then◌else◌, Option, ◌∷◌, ℕ, none, suc, [], some, ◌&&◌, ◌||◌, length, zero,
}

pub record MsgMappingEntry : Type 0 where
  pub src : ℤ
  pub dst : ℤ

pub record MsgMappingCache : Type 0 where
  pub cap : ℤ
  pub ll : List MsgMappingEntry

unfoldable pub new_msg_mapping_cache : ℤ → MsgMappingCache
new_msg_mapping_cache capacity = record {
  cap = if leb_ℤ capacity (pos 0) then pos 10000 else capacity;
  ll = [];
}

-- `c.m[src]`
unfoldable pub find : ℤ → List MsgMappingEntry → Option MsgMappingEntry
find src [] = none
find src (ent ∷ rest) = if eqb_ℤ ent.src src then some ent else find src rest

-- The list without the element of a source.
unfoldable pub remove : ℤ → List MsgMappingEntry → List MsgMappingEntry
remove src [] = []
remove src (ent ∷ rest) = if eqb_ℤ ent.src src then rest else ent ∷ remove src rest

unfoldable pub get : ℤ → MsgMappingCache → MsgMappingCache × Option ℤ
get src c = if leb_ℤ src (pos 0) then (c, none) else elim (find src c.ll) [
  | none ↦ (c, none)
  | some ent ↦
      if leb_ℤ ent.dst (pos 0)
      then (c, none)
      else (record c { ll = ent ∷ remove src c.ll }, some ent.dst)
]

-- The list without its last element.
unfoldable pub drop_back : List MsgMappingEntry → List MsgMappingEntry
drop_back [] = []
drop_back (ent ∷ []) = []
drop_back (ent ∷ next ∷ rest) = ent ∷ drop_back (next ∷ rest)

-- The loop that removes the last element while there are more than `cap`, by the list's length.
unfoldable pub shrink : ℤ → ℕ → List MsgMappingEntry → List MsgMappingEntry
shrink cap zero ll = ll
shrink cap (suc n) ll =
    let rest = shrink cap n (drop_back ll) in
    if ltb_ℤ (pos 0) cap && ltb_ℤ cap (pos (length ll)) then rest else ll

unfoldable pub put : ℤ → ℤ → MsgMappingCache → MsgMappingCache
put src dst c = if leb_ℤ src (pos 0) || leb_ℤ dst (pos 0) then c else elim (find src c.ll) [
  | some ent ↦ record c { ll = record ent { dst = dst } ∷ remove src c.ll }
  | none ↦
      let ll = record { src = src; dst = dst } ∷ c.ll in
      record c { ll = shrink c.cap (length ll) ll }
]
