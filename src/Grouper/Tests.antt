-- ===== src/Grouper/Tests.antt =====
-- Runs of the grouper of internal/engine/grouper.go, with messages that are their IDs.
use tgvive.Prelude.Int.{ℤ, pos}
use tgvive.Grouper.{
  AlbumGrouper, add, add_to, new_grouper, group_at, is_duplicate, has_id, album_key, next_seq, fire,
  batch_of, album_key_eq,
}
use tgvive.Prelude.{List, ◌∷◌, true, ◌≡◌, [], ◌+◌, refl}
use tgvive.Grouper.Runs.{run, Event, start, message, step, nothing_lost, expire}
use tgvive.Grouper.Conservation.{count, count_all, held}
use tgvive.Prelude.Map.{insert, lookup, delete}

abbrev own_id : ℤ → ℤ
own_id i = i

-- One message of album 9 of task 1.
abbrev one_held : AlbumGrouper ℤ
one_held = (add own_id 1 (pos 9) (pos 5) (new_grouper (pos 0))).grouper

-- Two messages and a duplicate, the stopped then the timer of the second.
abbrev album : List (Event ℤ)
album =
    message 1 (pos 9) (pos 5)
    ∷ message 1 (pos 9) (pos 6)
    ∷ message 1 (pos 9) (pos 5)
    ∷ expire (album_key 1 (pos 9)) 1
    ∷ expire (album_key 1 (pos 9)) 2
    ∷ []

flushes_once : (run own_id album (start own_id (pos 0))).flushed ≡ (pos 5 ∷ pos 6 ∷ []) ∷ []
unfolding run start step add add_to new_grouper group_at is_duplicate has_id next_seq insert lookup
    fire batch_of delete
flushes_once = refl

nothing_lost_example :
    let r = run own_id album (start own_id (pos 0)) in
    count (λ m. true) r.taken
    ≡ count_all (λ m. true) r.flushed
      + count_all (λ m. true) r.dropped
      + held (λ m. true) r.grouper.groups
nothing_lost_example = nothing_lost own_id (λ m. true) (pos 0) album
