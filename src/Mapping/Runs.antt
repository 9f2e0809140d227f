-- ===== src/Mapping/Runs.antt =====
-- Runs of the cache.
use tgvive.Prelude.Int.{ℤ, pos, ◌<ℤ◌, pos_part, int_laws}
use tgvive.Mapping.{MsgMappingCache, get, put}
use tgvive.Prelude.{List, ◌∷◌, ℕ, ◌≡◌, ◌≢◌, All, [], arith, suc, length, ◌<◌, ◌+◌, some, subst}
use tgvive.Mapping.Recent.{IsHeld, get_other-IsHeld, put-IsHeld, put_other-IsHeld, get-IsHeld}

pub data Op : Type 0 where
  op_get : ℤ → Op
  op_put : ℤ → ℤ → Op

abbrev pub source_of : Op → ℤ
source_of (op_get src) = src
source_of (op_put src dst) = src

unfoldable pub apply : Op → MsgMappingCache → MsgMappingCache
apply (op_get src) c = (get src c).0
apply (op_put src dst) c = put src dst c

unfoldable pub apply_all : List Op → MsgMappingCache → MsgMappingCache
apply_all [] c = c
apply_all (op ∷ ops) c = apply_all ops (apply op c)

apply-cap : (op : Op) (c : MsgMappingCache) → (apply op c).cap ≡ c.cap
unfolding apply get put
apply-cap (op_get src) c = ground arith
apply-cap (op_put src dst) c = ground arith

apply-IsHeld :
    (op : Op) (src dst : ℤ) (n : ℕ) (c : MsgMappingCache)
    → src ≢ source_of op
    → suc n < pos_part c.cap
    → IsHeld src dst n c
    → IsHeld src dst (suc n) (apply op c)
unfolding apply
apply-IsHeld (op_get asked) src dst n c h room held = get_other-IsHeld src dst asked n c h held
apply-IsHeld (op_put s d) src dst n c h room held = put_other-IsHeld src dst s d n c h room held

apply_all-IsHeld :
    (ops : List Op) (src dst : ℤ) (n : ℕ) (c : MsgMappingCache)
    → All (λ op. src ≢ source_of op) ops
    → length ops + n < pos_part c.cap
    → IsHeld src dst n c
    → IsHeld src dst (length ops + n) (apply_all ops c)
unfolding apply_all
apply_all-IsHeld [] src dst n c h room held = subst (λ k. IsHeld src dst k c) (omega arith) held
apply_all-IsHeld (op ∷ ops) src dst n c h room held =
    let next = apply-IsHeld op src dst n c h.0 (omega arith) held in
    let fits : length ops + suc n < pos_part (apply op c).cap = ground (arith, apply-cap op c) in
    let rest = apply_all-IsHeld ops src dst (suc n) (apply op c) h.1 fits next in
    let shift : length ops + suc n ≡ suc (length ops) + n = omega arith in
    subst (λ k. IsHeld src dst k (apply_all ops (apply op c))) shift rest

-- A message's mapping that was put is found again after any calls for other messages that are fewer
-- than the capacity, however full the cache was.
pub put-recalled :
    (src dst : ℤ) (c : MsgMappingCache) (ops : List Op)
    → pos 0 <ℤ src
    → pos 0 <ℤ dst
    → length ops < pos_part c.cap
    → All (λ op. src ≢ source_of op) ops
    → (get src (apply_all ops (put src dst c))).1 ≡ some dst
unfolding apply
put-recalled src dst c ops hs hd room others =
    let cap = apply-cap (op_put src dst) c in
    let held = put-IsHeld src dst c hs hd (omega int_laws) in
    let fits : length ops + 0 < pos_part (put src dst c).cap = ground (arith, cap) in
    get-IsHeld src dst (length ops + 0) (apply_all ops (put src dst c)) hs hd
      (apply_all-IsHeld ops src dst 0 (put src dst c) others fits held)
