-- ===== src/Mapping/Size.antt =====
-- The cache never holds more than its capacity, and no source twice.
use tgvive.Prelude.{
  List, ◌∷◌, ◌≡◌, ℕ, Option-cases, none, length, some, suc, inl, [], ◌≤◌, arith, refl, inr, zero,
}
use tgvive.Mapping.{
  MsgMappingCache, find, drop_back, shrink, get, put, MsgMappingEntry, remove,
  new_msg_mapping_cache,
}
use tgvive.Prelude.Int.{pos, ℤ, ◌<ℤ◌, pos_part, eqb_ℤ_iff}
use tgvive.Mapping.Recent.{length-drop_back, find-src}

abbrev pub IsSingle : List MsgMappingEntry → Type 0
IsSingle [] = Unit
IsSingle (ent ∷ rest) = (find ent.src rest ≡ none) × IsSingle rest

pub record IsCache (c : MsgMappingCache) : Type 0 where
  pub cap_pos : pos 0 <ℤ c.cap
  pub fits : length c.ll ≤ pos_part c.cap
  pub single : IsSingle c.ll

length-remove :
    (src : ℤ) (ll : List MsgMappingEntry) (ent : MsgMappingEntry)
    → find src ll ≡ some ent
    → suc (length (remove src ll)) ≡ length ll
unfolding find remove
length-remove src [] ent h = cc
length-remove src (e ∷ rest) ent h = ground (arith, h, length-remove src rest ent)

find-remove-none :
    (i j : ℤ) (ll : List MsgMappingEntry) → find i ll ≡ none → find i (remove j ll) ≡ none
unfolding find remove
find-remove-none i j [] h = refl
find-remove-none i j (ent ∷ rest) h = ground (arith, h, find-remove-none i j rest)

remove-IsSingle :
    (src : ℤ) (ll : List MsgMappingEntry)
    → IsSingle ll
    → IsSingle (remove src ll) × (find src (remove src ll) ≡ none)
unfolding find remove
remove-IsSingle src [] h = (tt, refl)
remove-IsSingle src (ent ∷ rest) h = ground (
  arith,
  h.0,
  h.1,
  remove-IsSingle src rest h.1,
  find-remove-none ent.src src rest h.0,
  eqb_ℤ_iff ent.src src,
)

find-drop_back-none :
    (i : ℤ) (ll : List MsgMappingEntry) → find i ll ≡ none → find i (drop_back ll) ≡ none
unfolding find drop_back
find-drop_back-none i [] h = refl
find-drop_back-none i (ent ∷ []) h = refl
find-drop_back-none i (ent ∷ next ∷ rest) h = ground (arith, h, find-drop_back-none i (next ∷ rest))

drop_back-IsSingle : (ll : List MsgMappingEntry) → IsSingle ll → IsSingle (drop_back ll)
unfolding drop_back
drop_back-IsSingle [] h = tt
drop_back-IsSingle (ent ∷ []) h = tt
drop_back-IsSingle (ent ∷ next ∷ rest) h =
    (find-drop_back-none ent.src (next ∷ rest) h.0, drop_back-IsSingle (next ∷ rest) h.1)

-- With as much fuel as the list is long, the loop ends at the capacity.
shrink-fits :
    (cap : ℤ) (n : ℕ) (ll : List MsgMappingEntry)
    → pos 0 <ℤ cap
    → length ll ≤ n
    → length (shrink cap n ll) ≤ pos_part cap
unfolding shrink
shrink-fits cap zero ll hc h = omega arith
shrink-fits cap (suc n) ll hc h =
    ground (arith, hc, h, shrink-fits cap n (drop_back ll), length-drop_back ll)

shrink-IsSingle :
    (cap : ℤ) (n : ℕ) (ll : List MsgMappingEntry) → IsSingle ll → IsSingle (shrink cap n ll)
unfolding shrink
shrink-IsSingle cap zero ll h = h
shrink-IsSingle cap (suc n) ll h =
    let less = shrink-IsSingle cap n (drop_back ll) (drop_back-IsSingle ll h) in
    ground (arith, h, less)

pub get-IsCache : (src : ℤ) (c : MsgMappingCache) → IsCache c → IsCache (get src c).0
unfolding get
get-IsCache src c h = elim (Option-cases (find src c.ll)) [
  | inl e ↦ ground (arith, e, h)
  | inr (ent, e) ↦
      let single = remove-IsSingle src c.ll h.single in
      let size = length-remove src c.ll ent e in
      let name = find-src src c.ll ent e in
      ground (arith, e, h, h.cap_pos, h.fits, single, size, name)
]

-- `Put`, whatever its arguments, keeps the cache within its capacity, and holds no source twice.
pub put-IsCache : (src dst : ℤ) (c : MsgMappingCache) → IsCache c → IsCache (put src dst c)
unfolding put
put-IsCache src dst c h = elim (Option-cases (find src c.ll)) [
  | inl e ↦
      let ll : List MsgMappingEntry = record { src = src; dst = dst } ∷ c.ll in
      let fits = shrink-fits c.cap (length ll) ll h.cap_pos (omega arith) in
      let single = shrink-IsSingle c.cap (length ll) ll (e, h.single) in
      ground (arith, e, h, h.cap_pos, fits, single)
  | inr (ent, e) ↦
      let single = remove-IsSingle src c.ll h.single in
      let size = length-remove src c.ll ent e in
      let name = find-src src c.ll ent e in
      ground (arith, e, h, h.cap_pos, h.fits, single, size, name)
]

-- A new cache is empty, and its capacity positive.
pub new-IsCache : (capacity : ℤ) → IsCache (new_msg_mapping_cache capacity)
unfolding new_msg_mapping_cache
new-IsCache capacity = ground arith
