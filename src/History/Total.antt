-- ===== src/History/Total.antt =====
-- A loop of turns returns, if each turn that goes on comes nearer to the end; and what a turn makes
-- of a page.
use tgvive.History.Data.{Copy, Env, Step, Mode, done, next}
use tgvive.Prelude.{
  Option, ℕ, Bool, ◌<◌, List, arith, suc, ◌++◌, ◌≡◌, some, All, ◌∷◌, ◌+◌, [], sort_slice, length,
  ◌⊎◌, none, true, false, sort_slice-length, ◌≢◌, inl, inr, sort_slice-All, Bool-cases, sym, ◌∙◌,
  append_nil, zero,
}
use tgvive.History.Loops.{
  run_turns, Finished, finished, out_of_fuel, run_page, finish_page, begin_page,
}
use tgvive.History.Takes.{Takes, handle_page-Takes}
use tgvive.Filter.{Msg}
use tgvive.History.Page.{eligible, IsMode}
use tgvive.History.Groups.{HasDistinctIds, IsPositive, cursor_after}
use tgvive.Prelude.Results.{ok}
use tgvive.History.Sorting.{sort_slice-IsStrict}

module _ {Err Entity : Type 0} where
  abbrev pub After :
      (Copy Entity → Type 0) → (Option Err → Copy Entity → Type 0) → Step Err Entity → Type 0
  After P Q (done e st) = Q e st
  After P Q (next rest st) = P st

  -- The loop has come to its end, and not to that of its fuel.
  abbrev pub Returns : (Option Err → Copy Entity → Type 0) → Finished Err Entity → Type 0
  Returns Q (finished e st) = Q e st
  Returns Q (out_of_fuel st) = ⊥

  pub Returns-mono :
      (P Q : Option Err → Copy Entity → Type 0) (r : Finished Err Entity)
      → ((e : Option Err) (st : Copy Entity) → P e st → Q e st)
      → Returns P r
      → Returns Q r
  Returns-mono P Q (finished e st) f h = f e st h
  Returns-mono P Q (out_of_fuel st) f h = h

  pub run_turns-Returns :
      (turn : Copy Entity → Step Err Entity) (measure : Copy Entity → ℕ) (P : Copy Entity → Type 0)
      (Q : Option Err → Copy Entity → Type 0)
      → ((st : Copy Entity) → P st → After (λ s. P s × (measure s < measure st)) Q (turn st))
      → (fuel : ℕ) (st : Copy Entity) → measure st < fuel
      → P st
      → Returns Q (run_turns turn fuel st)
  unfolding run_turns
  run_turns-Returns turn measure P Q keep zero st short p = absurd (omega arith)
  run_turns-Returns turn measure P Q keep (suc fuel) st short p =
      step (turn st) (keep st p)
        (λ st' p' less. run_turns-Returns turn measure P Q keep fuel st' (omega arith) p')
    where
      step :
          (r : Step Err Entity)
          → After (λ s. P s × (measure s < measure st)) Q r
          → ((st' : Copy Entity)
              → P st'
              → measure st' < measure st
              → Returns Q (run_turns turn fuel st'))
          → Returns Q
              (elim r [ done e st' ↦ finished e st' | next rest st' ↦ run_turns turn fuel st' ])
      step (done e st') h later = h
      step (next rest st') h later = later st' h.0 h.1

module _ {Err Entity : Type 0} (env : Env Err Entity) (mode : Mode Entity)
    (allow_equal : Bool) where
  -- A turn with a page goes on after taking all its eligible messages, one at least. Or it ends, with
  -- an error unless there are none.
  abbrev pub RunsPage : Copy Entity → List (Msg Entity) → Step Err Entity → Type 0
  RunsPage st new (done e st') =
      (left : List (Msg Entity)) × (st.taken ++ new ≡ st'.taken ++ left)
      × (st'.processed + length left ≡ st.processed + length new)
      × (e ≡ none → new ≡ [])
  RunsPage st new (next rest st') =
      (st'.taken ≡ st.taken ++ new)
      × (st'.processed ≡ st.processed + length new)
      × (st'.cursor ≡ cursor_after st.cursor new)
      × (st'.include_once ≡ false)
      × (new ≢ [])

  finish_page-RunsPage :
      (st : Copy Entity) (ms : List (Msg Entity)) (r : Step Err Entity)
      → Takes env mode allow_equal (begin_page env st) ms r
      → RunsPage st (eligible mode allow_equal st.cursor ms) (finish_page env r)
  unfolding Takes finish_page begin_page
  finish_page-RunsPage st ms (done (some e) st') (left, kept, count, error) =
      (left, kept, count, λ q. cc)
  finish_page-RunsPage st ms (done none st') (left, kept, count, error) = elim error [ ]
  finish_page-RunsPage st ms (next rest st')
        (none_left, (taken, processed, cursor, include, still, moved)) =
      elim (Bool-cases st'.advanced) [
        | inl e ↦ rw e (taken, processed, cursor, include, λ q. cc (still q))
        | inr e ↦
            rw e ([], sym taken ∙ sym (append_nil st'.taken), omega arith, λ q. nothing moved e)
      ]
    where
      nothing :
          (eligible mode allow_equal st.cursor ms ≡ []) ⊎ (st'.advanced ≡ true)
          → st'.advanced ≡ false
          → eligible mode allow_equal st.cursor ms ≡ []
      nothing (inl e) f = e
      nothing (inr e) f = cc

  -- A page as the client gives it: the IDs are positive and differ.
  abbrev pub IsPage : List (Msg Entity) → Type 0
  IsPage ms = HasDistinctIds ms × All IsPositive ms

  -- A page whose IDs are positive and differ, in a mode that satisfies its laws: if the turn goes on,
  -- it has recorded every message of the page that it does not pass over, one at least, in the mode's
  -- order, and its cursor is at the last. If the turn ends, it has recorded a first part of them, and
  -- without an error there were none.
  pub run_page-RunsPage :
      (laws : IsMode mode) (m : Msg Entity) (ms : List (Msg Entity)) (st : Copy Entity)
      → IsPage (m ∷ ms)
      → RunsPage st
          (eligible mode allow_equal st.cursor (sort_slice mode.less (m ∷ ms)))
          (run_page env mode allow_equal st (ok (m ∷ ms)))
  unfolding run_page begin_page
  run_page-RunsPage laws m ms st page = finish_page-RunsPage st (sort_slice mode.less (m ∷ ms)) _ (
      handle_page-Takes env mode allow_equal laws (length (m ∷ ms)) (sort_slice mode.less (m ∷ ms))
        (begin_page env st) (omega (arith, sort_slice-length mode.less (m ∷ ms)))
        (sort_slice-IsStrict mode laws (m ∷ ms) page.0)
        (sort_slice-All mode.less IsPositive (m ∷ ms) page.1))
