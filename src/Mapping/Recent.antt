-- ===== src/Mapping/Recent.antt =====
-- What the cache recalls, and in which order it forgets.
use tgvive.Mapping.{find, drop_back, shrink, remove, put, MsgMappingEntry, MsgMappingCache, get}
use tgvive.Prelude.Int.{ℤ, pos, pos_part, ◌<ℤ◌, eqb_ℤ_iff, eqb_ℤ}
use tgvive.Prelude.{
  List, ℕ, ◌≢◌, ◌≡◌, ◌∷◌, suc, length, ◌<◌, arith, some, if◌then◌else◌, ◌-◌, [], zero, refl, ◌≤◌,
  Option-cases, inl, inr,
}

find-remove_other : (i j : ℤ) (ll : List MsgMappingEntry) → i ≢ j → find i (remove j ll) ≡ find i ll
unfolding find remove
find-remove_other i j [] h = refl
find-remove_other i j (ent ∷ rest) h =
    ground (arith, find-remove_other i j rest h, eqb_ℤ_iff ent.src i, eqb_ℤ_iff ent.src j)

pub find-src :
    (i : ℤ) (ll : List MsgMappingEntry) (ent : MsgMappingEntry) → find i ll ≡ some ent → ent.src ≡ i
unfolding find
find-src i [] ent h = cc
find-src i (e ∷ rest) ent h = ground (arith, find-src i rest ent, eqb_ℤ_iff e.src i, h)

-- A source's place in the list: how many entries were used more recently.
unfoldable pub place : ℤ → List MsgMappingEntry → ℕ
place i [] = 0
place i (ent ∷ rest) = if eqb_ℤ ent.src i then 0 else suc (place i rest)

-- Shortening the list keeps each entry whose place is within the capacity.
find-drop_back :
    (i : ℤ) (ll : List MsgMappingEntry)
    → suc (place i ll) < length ll
    → (find i (drop_back ll) ≡ find i ll) × (place i (drop_back ll) ≡ place i ll)
unfolding find drop_back place
find-drop_back i [] h = absurd (omega arith)
find-drop_back i (ent ∷ []) h = absurd (ground (arith, h))
find-drop_back i (ent ∷ next ∷ rest) h = ground (arith, h, find-drop_back i (next ∷ rest))

pub length-drop_back : (ll : List MsgMappingEntry) → length (drop_back ll) ≡ length ll - 1
unfolding drop_back
length-drop_back [] = refl
length-drop_back (ent ∷ []) = refl
length-drop_back (ent ∷ next ∷ rest) = omega (arith, length-drop_back (next ∷ rest))

pub find-shrink :
    (i cap : ℤ) (n : ℕ) (ll : List MsgMappingEntry)
    → place i ll < pos_part cap
    → place i ll < length ll
    → (find i (shrink cap n ll) ≡ find i ll) × (place i (shrink cap n ll) ≡ place i ll)
unfolding shrink
find-shrink i cap zero ll h l = (refl, refl)
find-shrink i cap (suc n) ll h l =
    ground
      (arith, h, l, find-shrink i cap n (drop_back ll), find-drop_back i ll, length-drop_back ll)

place-remove_le : (i j : ℤ) (ll : List MsgMappingEntry) → i ≢ j → place i (remove j ll) ≤ place i ll
unfolding place remove
place-remove_le i j [] h = omega arith
place-remove_le i j (ent ∷ rest) h =
    ground (arith, place-remove_le i j rest h, eqb_ℤ_iff ent.src i, eqb_ℤ_iff ent.src j)

place-lt :
    (i : ℤ) (ll : List MsgMappingEntry) (ent : MsgMappingEntry)
    → find i ll ≡ some ent
    → place i ll < length ll
unfolding place find
place-lt i [] ent h = cc
place-lt i (e ∷ rest) ent h = ground (arith, h, place-lt i rest ent)

-- A source is held with its ID in the target, and at most that many entries are more recent.
pub record IsHeld (src dst : ℤ) (n : ℕ) (c : MsgMappingCache) : Type 0 where
  pub ent : MsgMappingEntry
  pub found : find src c.ll ≡ some ent
  pub goes_to : ent.dst ≡ dst
  pub near : place src c.ll ≤ n

pub put-IsHeld :
    (src dst : ℤ) (c : MsgMappingCache)
    → pos 0 <ℤ src
    → pos 0 <ℤ dst
    → pos 0 <ℤ c.cap
    → IsHeld src dst 0 (put src dst c)
unfolding put find place
put-IsHeld src dst c hs hd hc = elim (Option-cases (find src c.ll)) [
  | inl e ↦
      let fresh : MsgMappingEntry = record { src = src; dst = dst } in
      let kept = find-shrink src c.cap (suc (length c.ll)) (fresh ∷ c.ll) in
      let same = eqb_ℤ_iff src src in
      record {
        ent = fresh;
        found = ground (arith, e, hs, hd, hc, kept, same);
        goes_to = refl;
        near = ground (arith, e, hs, hd, hc, kept, same);
      }
  | inr (old, e) ↦
      let name = find-src src c.ll old e in
      let same = eqb_ℤ_iff old.src src in
      record {
        ent = record old { dst = dst };
        found = ground (arith, e, hs, hd, name, same);
        goes_to = refl;
        near = ground (arith, e, hs, hd, name, same);
      }
]

-- Another source costs a place at most.
pub put_other-IsHeld :
    (src dst n_src n_dst : ℤ) (n : ℕ) (c : MsgMappingCache)
    → src ≢ n_src
    → suc n < pos_part c.cap
    → IsHeld src dst n c
    → IsHeld src dst (suc n) (put n_src n_dst c)
unfolding put find place
put_other-IsHeld src dst n_src n_dst n c h room held = elim (Option-cases (find n_src c.ll)) [
  | inl e ↦
      let fresh : MsgMappingEntry = record { src = n_src; dst = n_dst } in
      let kept = find-shrink src c.cap (suc (length c.ll)) (fresh ∷ c.ll) in
      let here = place-lt src c.ll held.ent held.found in
      let other = eqb_ℤ_iff n_src src in
      record {
        ent = held.ent;
        found = ground (arith, e, room, held.found, held.near, kept, here, other, h);
        goes_to = held.goes_to;
        near = ground (arith, e, room, held.found, held.near, kept, here, other, h);
      }
  | inr (old, e) ↦
      let name = find-src n_src c.ll old e in
      let other = eqb_ℤ_iff old.src src in
      let kept = find-remove_other src n_src c.ll h in
      let less = place-remove_le src n_src c.ll h in
      record {
        ent = held.ent;
        found = ground (arith, e, name, held.found, held.near, kept, other, h);
        goes_to = held.goes_to;
        near = ground (arith, e, name, held.near, less, other, h);
      }
]

pub get_other-IsHeld :
    (src dst asked : ℤ) (n : ℕ) (c : MsgMappingCache)
    → src ≢ asked
    → IsHeld src dst n c
    → IsHeld src dst (suc n) (get asked c).0
unfolding get find place
get_other-IsHeld src dst asked n c h held = elim (Option-cases (find asked c.ll)) [
  | inl e ↦ record {
    ent = held.ent;
    found = ground (arith, e, held.found);
    goes_to = held.goes_to;
    near = ground (arith, e, held.near);
  }
  | inr (old, e) ↦
      let name = find-src asked c.ll old e in
      let other = eqb_ℤ_iff old.src src in
      let kept = find-remove_other src asked c.ll h in
      let less = place-remove_le src asked c.ll h in
      record {
        ent = held.ent;
        found = ground (arith, e, name, held.found, kept, other, h);
        goes_to = held.goes_to;
        near = ground (arith, e, name, held.near, less, other, h);
      }
]

pub get-IsHeld :
    (src dst : ℤ) (n : ℕ) (c : MsgMappingCache)
    → pos 0 <ℤ src
    → pos 0 <ℤ dst
    → IsHeld src dst n c
    → (get src c).1 ≡ some dst
unfolding get
get-IsHeld src dst n c hs hd held = ground (arith, hs, hd, held.found, held.goes_to)
