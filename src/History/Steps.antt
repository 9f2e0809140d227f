-- ===== src/History/Steps.antt =====
-- A turn keeps the invariant of a copy and comes nearer to its end, whatever the answer to its
-- request, if that has positive IDs that differ.
-- The IDs that there are: from 1 to the greatest.
use tgvive.Prelude.{
  ℕ, List, Bool, ◌≡◌, false, true, All, ◌≢◌, Option, ◌+◌, [], if◌then◌else◌, ◌∷◌, some, ◌<◌, refl,
  not, arith, none, sort_slice, sort_slice-All, ◌++◌, sym, ◌∙◌, append_nil, ap,
}
use tgvive.History.Data.{Env, Mode, Copy, Step, done, next}
use tgvive.Prelude.Int.{ℤ, leb_ℤ, pos}
use tgvive.Prelude.Results.{Result, err, ok}
use tgvive.History.Page.{IsMode}
use tgvive.Filter.{Msg}
use tgvive.History.Groups.{
  HasDistinctIds, IsPositive, cursor_after, IsStrict, last_of, last_of-All, pick,
  cursor_after-append,
}
use tgvive.History.Runs.{IsMeasure, Invariant, InOrder, InOrder-part}
use tgvive.History.Loops.{run_page}
use tgvive.History.Total.{After, RunsPage, run_page-RunsPage}
use tgvive.History.Order.{pick-IsStrict, pick-All, pick_passes}
use tgvive.History.Sorting.{sort_slice-IsStrict}

abbrev pub UpTo : ℕ → ℤ → Type 0
UpTo top id = (leb_ℤ id (pos 0) ≡ false) × (leb_ℤ id (pos top) ≡ true)

abbrev pub IsAnswer : {Err Entity : Type 0} → ℕ → Result Err (List (Msg Entity)) → Type 0
IsAnswer top (err e) = Unit {0}
IsAnswer top (ok ms) = HasDistinctIds ms × All IsPositive ms × All (λ m. UpTo top m.id) ms

module _ {Err Entity : Type 0} (env : Env Err Entity) (mode : Mode Entity) (laws : IsMode mode)
    (start : ℤ) (allow_equal : Bool) (top : ℕ) (distance : ℤ → ℕ)
    (nearer : IsMeasure mode (UpTo top) distance) where
  abbrev pub left_to_do : Copy Entity → ℕ
  left_to_do st = distance st.cursor + (if st.include_once then 1 else 0)

  -- What a turn is to do.
  unfoldable pub Continues : Copy Entity → Step Err Entity → Type 0
  Continues st r =
      After (λ s. Invariant env mode laws start allow_equal s × (left_to_do s < left_to_do st))
        (λ e s. InOrder env mode laws start allow_equal s) r

  new_nearer :
      (include : Bool) (cursor : ℤ) (new : List (Msg Entity))
      → new ≢ []
      → All (λ x. mode.skips include cursor x.id ≡ false) new
      → All (λ m. UpTo top m.id) new
      → distance (cursor_after cursor new) < distance cursor + (if include then 1 else 0)
  new_nearer include cursor [] some_new keep near = absurd (some_new refl)
  new_nearer true cursor (m ∷ ms) some_new keep near =
      let last = last_of m ms in
      omega (
        arith,
        nearer.closer cursor last.id (last_of-All (λ x. UpTo top x.id) m ms near)
            (last_of-All (λ x. mode.skips true cursor x.id ≡ false) m ms keep),
      )
  new_nearer false cursor (m ∷ ms) some_new keep near =
      let last = last_of m ms in
      omega (
        arith,
        nearer.strictly cursor last.id (last_of-All (λ x. UpTo top x.id) m ms near)
            (last_of-All (λ x. mode.skips false cursor x.id ≡ false) m ms keep),
      )

  cursor_after-new :
      (c d : ℤ) (new : List (Msg Entity)) → new ≢ [] → cursor_after c new ≡ cursor_after d new
  cursor_after-new c d [] some_new = absurd (some_new refl)
  cursor_after-new c d (m ∷ ms) some_new = refl

  none_new : (xs : List (Msg Entity)) {ys : List (Msg Entity)} → xs ++ ys ≡ [] → ys ≡ []
  none_new [] e = e
  none_new (x ∷ xs) e = cc

  page_step :
      (st : Copy Entity) (new : List (Msg Entity)) (r : Step Err Entity)
      → Invariant env mode laws start allow_equal st
      → IsStrict mode.less new
      → All IsPositive new
      → All (λ m. UpTo top m.id) new
      → All (λ x. mode.skips st.include_once st.cursor x.id ≡ false) new
      → RunsPage env mode st.include_once st new r
      → Continues st r
  unfolding Continues
  page_step st new (done e st') inv strict positive near keep (left, same, count, rest) =
      InOrder-part env mode laws start allow_equal st st' new left inv strict positive keep same
        count
  page_step st new (next rest st') inv strict positive near keep
        (taken, count, cursor, include, some_new) =
      (
        (
          InOrder-part env mode laws start allow_equal st st' new [] inv strict positive keep
              (sym taken ∙ sym (append_nil st'.taken)) (omega arith),
          (
            ap (λ xs. cursor_after start xs) taken
                ∙ sym (cursor_after-append start st.taken new)
                ∙ cursor_after-new _ _ new some_new
                ∙ sym cursor,
            λ e. absurd (some_new (none_new st.taken (sym taken ∙ e))),
            λ e. cc,
          ),
        ),
        rw (include, cursor)
            (omega (arith, new_nearer st.include_once st.cursor new some_new keep near)),
      )

  pub run_page-Continues :
      (st : Copy Entity) (answer : Result Err (List (Msg Entity)))
      → Invariant env mode laws start allow_equal st
      → IsAnswer top answer
      → Continues st (run_page env mode st.include_once st answer)
  unfolding run_page Continues
  run_page-Continues st (err e) inv h = inv.0
  run_page-Continues st (ok []) inv h = inv.0
  run_page-Continues st (ok (m ∷ ms)) inv (distinct, positive, near) =
      let sorted = sort_slice mode.less (m ∷ ms) in
      let passes = λ (x : Msg Entity). not (mode.skips st.include_once st.cursor x.id) in
      page_step st (pick passes sorted) _ inv
        (pick-IsStrict mode.less passes sorted (sort_slice-IsStrict mode laws (m ∷ ms) distinct))
        (pick-All IsPositive passes sorted (sort_slice-All mode.less IsPositive (m ∷ ms) positive))
        (pick-All (λ x. UpTo top x.id) passes sorted
          (sort_slice-All mode.less (λ x. UpTo top x.id) (m ∷ ms) near))
        (not_skipped (pick passes sorted) (pick_passes passes sorted))
        (run_page-RunsPage env mode st.include_once laws m ms st (distinct, positive))
    where
      not_skipped :
          (xs : List (Msg Entity))
          → All (λ x. not (mode.skips st.include_once st.cursor x.id) ≡ true) xs
          → All (λ x. mode.skips st.include_once st.cursor x.id ≡ false) xs
      not_skipped [] h = tt
      not_skipped (x ∷ xs) h = (ground (arith, h.0), not_skipped xs h.1)

  -- The tests at the head of a turn.
  pub stop-Continues :
      (o : Option (Option Err)) (st : Copy Entity) (later : Step Err Entity)
      → Invariant env mode laws start allow_equal st
      → Continues st later
      → Continues st (elim o [ some e ↦ done e st | none ↦ later ])
  unfolding Continues
  stop-Continues (some e) st later inv h = inv.0
  stop-Continues none st later inv h = h

  pub limit-Continues :
      (full : Bool) (st : Copy Entity) (later : Step Err Entity)
      → Invariant env mode laws start allow_equal st
      → Continues st later
      → Continues st (if full then done none st else later)
  unfolding Continues
  limit-Continues true st later inv h = inv.0
  limit-Continues false st later inv h = h
