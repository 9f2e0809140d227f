-- ===== src/Mapping/Tests.antt =====
-- Runs of the cache of internal/engine/msg_mapping_cache.go.
-- A cache of two that holds 5 ↦ 50.
use tgvive.Mapping.{
  MsgMappingCache, get, put, new_msg_mapping_cache, find, remove, shrink, drop_back,
}
use tgvive.Mapping.Size.{IsCache, put-IsCache, new-IsCache}
use tgvive.Prelude.Int.{pos}
use tgvive.Mapping.Runs.{apply_all, op_put, put-recalled}
use tgvive.Prelude.{◌∷◌, ◌≡◌, [], none, some, refl, arith}

abbrev two : MsgMappingCache
two = put (pos 5) (pos 50) (new_msg_mapping_cache (pos 2))

forgets_least_recent :
    ((get (pos 6) (put (pos 7) (pos 70) (get (pos 5) (put (pos 6) (pos 60) two)).0)).1 ≡ none)
    × ((get (pos 5) (put (pos 7) (pos 70) (get (pos 5) (put (pos 6) (pos 60) two)).0)).1
        ≡ some (pos 50))
unfolding get put new_msg_mapping_cache find remove shrink drop_back
forgets_least_recent = (refl, refl)

put-recalled_example :
    (get (pos 6) (apply_all (op_put (pos 7) (pos 70) ∷ []) (put (pos 6) (pos 60) two))).1
    ≡ some (pos 60)
unfolding put new_msg_mapping_cache find
put-recalled_example =
    put-recalled (pos 6) (pos 60) two (op_put (pos 7) (pos 70) ∷ []) (omega arith) (omega arith)
      (omega arith) (λ e. ground (arith, e), tt)

two-IsCache : IsCache two
two-IsCache = put-IsCache (pos 5) (pos 50) _ (new-IsCache (pos 2))
