-- ===== src/Grouper/Conservation.antt =====
-- No message is lost: what the grouper took is held, flushed or dropped.
-- How often a kind of message stands in a list, in a list of batches, and in all groups.
use tgvive.Prelude.{
  Bool, List, ℕ, ◌++◌, ◌≡◌, ◌∷◌, ◌+◌, if◌then◌else◌, arith, none, eqb, [], refl, some,
}
use tgvive.Prelude.Map.{Map, insert, delete, delete_if, lookup, IsMap}
use tgvive.Grouper.{
  batch_of, AlbumKey, group_at, batches, AlbumGroup, album_key_eq, album_key_same_iff,
}

module _ {Msg : Type 0} (p : Msg → Bool) where
  unfoldable pub count : List Msg → ℕ
  count [] = 0
  count (m ∷ ms) = (if p m then 1 else 0) + count ms

  unfoldable pub count_all : List (List Msg) → ℕ
  count_all [] = 0
  count_all (b ∷ bs) = count b + count_all bs

  unfoldable pub held : Map AlbumKey (AlbumGroup Msg) → ℕ
  held [] = 0
  held ((k, group) ∷ rest) = count group.msgs + held rest

  pub count-append : (xs ys : List Msg) → count (xs ++ ys) ≡ count xs + count ys
  unfolding count
  count-append [] ys = omega arith
  count-append (x ∷ xs) ys = omega (arith, count-append xs ys)

  pub count_all-append :
      (xs ys : List (List Msg)) → count_all (xs ++ ys) ≡ count_all xs + count_all ys
  unfolding count_all
  count_all-append [] ys = omega arith
  count_all-append (x ∷ xs) ys = omega (arith, count_all-append xs ys)

  pub count_all-batch_of : (xs : List Msg) → count_all (batch_of xs) ≡ count xs
  unfolding count_all batch_of count
  count_all-batch_of [] = refl
  count_all-batch_of (x ∷ xs) = omega arith

  -- A group that is replaced: what it held goes, and what the new one holds comes.
  pub held-insert :
      (k : AlbumKey) (group : AlbumGroup Msg) (groups : Map AlbumKey (AlbumGroup Msg))
      → held (insert k group groups) + count (group_at k groups).msgs
        ≡ held groups + count group.msgs
  unfolding held insert group_at lookup count
  held-insert k group [] = omega arith
  held-insert k group ((j, old) ∷ rest) = let ih = held-insert k group rest in ground (arith, ih)

  pub held-delete_absent :
      (k : AlbumKey) (groups : Map AlbumKey (AlbumGroup Msg))
      → lookup k groups ≡ none
      → held (delete k groups) ≡ held groups
  unfolding held delete lookup
  held-delete_absent k [] h = refl
  held-delete_absent k ((j, old) ∷ rest) h = ground (arith, held-delete_absent k rest)

  pub held-delete :
      (k : AlbumKey) (group : AlbumGroup Msg) (groups : Map AlbumKey (AlbumGroup Msg))
      → IsMap groups
      → lookup k groups ≡ some group
      → held (delete k groups) + count group.msgs ≡ held groups
  unfolding held delete lookup
  held-delete k group [] h e = cc
  held-delete k group ((j, old) ∷ rest) h e = ground (
    arith,
    held-delete k group rest h.1,
    held-delete_absent k rest,
    album_key_same_iff j k,
    h.0,
    e,
  )

  pub held-delete_if :
      (task_id : ℕ) (groups : Map AlbumKey (AlbumGroup Msg))
      → held (delete_if (λ k. eqb k.task_id task_id) groups) + count_all (batches task_id groups)
        ≡ held groups
  unfolding held delete_if batches count_all
  held-delete_if task_id [] = refl
  held-delete_if task_id ((j, old) ∷ rest) = ground (
    arith,
    held-delete_if task_id rest,
    count_all-append (batch_of old.msgs) (batches task_id rest),
    count_all-batch_of old.msgs,
  )
