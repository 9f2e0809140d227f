-- ===== src/Realtime/Replies.antt =====
-- What the answer of a dispatch means for the seen messages.
use tgvive.Prelude.{Bool, ◌≡◌, none, false, ◌⊎◌, true, arith, some}
use tgvive.Prelude.Int.{ℤ, ◌≤ℤ◌}
use tgvive.Realtime.Dispatch.{accepts, World, Arrival}
use tgvive.Realtime.{enqueue, ensure_album_waiter, add_waiter, RuntimeTask}
use tgvive.Filter.{Msg}
use tgvive.Dedup.Replies.{IsKeyed}
use tgvive.Dedup.{seen}

module _ {Entity : Type 0} where
  -- Whether the cache would call the message seen.
  unfoldable pub is_known : ℤ → Msg Entity → World Entity → Bool
  is_known now msg w = elim w.dedup [ none ↦ false | some d ↦ (seen now w.rt.task_id msg.id d).1 ]

  -- From a reading of the clock on, the cache calls the same messages of the task seen.
  abbrev pub KnowsSame : ℤ → World Entity → World Entity → Type 0
  KnowsSame now w w' =
      (t : ℤ) (m : Msg Entity)
      → now ≤ℤ t
      → IsKeyed w.rt.task_id m.id
      → is_known t m w' ≡ is_known t m w

  -- What is left of a message that was refused.
  abbrev pub IsForgotten : Arrival → Msg Entity → World Entity → World Entity → Type 0
  IsForgotten call msg w w' =
      (w'.dedup ≡ w.dedup)
      ⊎ ((is_known call.now msg w ≡ true) × KnowsSame call.now w w')
      ⊎ ((now : ℤ) → is_known now msg w' ≡ false)

  pub accepts-IsKeyed :
      (call : Arrival) (msg : Msg Entity) (t : RuntimeTask Entity)
      → accepts call msg t ≡ true
      → IsKeyed t.task_id msg.id
  unfolding accepts
  accepts-IsKeyed call msg t h = ground (arith, h)

  pub ensure_refused :
      (pick : Bool) (grouped_id : ℤ) (from_pull : Bool) (t : RuntimeTask Entity)
      → (ensure_album_waiter pick grouped_id from_pull t).1 ≡ none
      → (ensure_album_waiter pick grouped_id from_pull t).0 ≡ t
  unfolding ensure_album_waiter add_waiter enqueue
  ensure_refused pick grouped_id from_pull t h = ground (arith, h)

  abbrev IsTraceless : Arrival → Msg Entity → World Entity → World Entity → Type 0
  IsTraceless call msg w w' = (w'.rt ≡ w.rt) × (w'.grouper ≡ w.grouper) × IsForgotten call msg w w'
