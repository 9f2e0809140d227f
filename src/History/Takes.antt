-- ===== src/History/Takes.antt =====
-- A page gives all its messages that are not passed over, in order, or stops with an error.
use tgvive.History.Data.{Env, Mode, Copy, Step, done, next}
use tgvive.Prelude.{
  Bool, List, ℕ, length, ◌≤◌, ◌++◌, suc, ◌≡◌, All, ◌+◌, ap, ◌∙◌, sym, [], append_assoc, arith,
  append_nil, length-append, ◌∷◌, subst, zero, refl, inl,
}
use tgvive.History.Page.{Rounds, IsMode, eligible, page_round-Rounds}
use tgvive.History.Turns.{handle_page, page_round}
use tgvive.Filter.{Msg}
use tgvive.History.Groups.{TakesGroup, IsStrict, IsPositive, TakesGroup-append}
use tgvive.History.Commits.{IsError}

module _ {Err Entity : Type 0} (env : Env Err Entity) (mode : Mode Entity)
    (allow_equal : Bool) where
  -- What a page makes of a state: it takes the eligible mode allow_equal messages in order, all of them unless it
  -- stops with an error.
  unfoldable pub Takes : Copy Entity → List (Msg Entity) → Step Err Entity → Type 0
  Takes st ms (done e st') =
      (left : List (Msg Entity)) × (st.taken ++ eligible mode allow_equal st.cursor ms
        ≡ st'.taken ++ left)
      × (st'.processed + length left
          ≡ st.processed + length (eligible mode allow_equal st.cursor ms))
      × IsError e
  Takes st ms (next rest st') =
      (rest ≡ []) × TakesGroup st (eligible mode allow_equal st.cursor ms) st'

  compose-Takes :
      (group ms rest : List (Msg Entity)) (st st' : Copy Entity) (r : Step Err Entity)
      → TakesGroup st group st'
      → eligible mode allow_equal st.cursor ms ≡ group ++ eligible mode allow_equal st'.cursor rest
      → Takes st' rest r
      → Takes st ms r
  unfolding Takes
  compose-Takes group ms rest st st' (done e last) took el (left, kept, count, error) = (
    left,
    ap (λ ys. st.taken ++ ys) el
        ∙ sym (append_assoc st.taken group (eligible mode allow_equal st'.cursor rest))
        ∙ ap (λ ys. ys ++ eligible mode allow_equal st'.cursor rest) (sym took.0)
        ∙ kept,
    omega (
      arith,
      ap length el,
      length-append group (eligible mode allow_equal st'.cursor rest),
      took.1,
      count,
    ),
    error,
  )
  compose-Takes group ms rest st st' (next later last) took el (none_left, others) = (
    none_left,
    subst (λ ys. TakesGroup st ys last) (sym el)
        (TakesGroup-append group (eligible mode allow_equal st'.cursor rest) st st' last took
          others),
  )

  round-Takes :
      (n : ℕ) (r : Step Err Entity) (ms : List (Msg Entity)) (st : Copy Entity)
      → length ms ≤ suc n
      → Rounds env mode allow_equal st ms r
      → ((rest : List (Msg Entity)) (st' : Copy Entity)
          → length rest ≤ n
          → IsStrict mode.less rest
          → All IsPositive rest
          → Takes st' rest (handle_page env mode allow_equal n rest st'))
      → Takes st ms (elim r [
        | done e st' ↦ done e st'
        | next rest st' ↦ handle_page env mode allow_equal n rest st'
      ])
  unfolding Rounds Takes
  round-Takes n (done e st') ms st short (taken, processed, error) later = (
    eligible mode allow_equal st.cursor ms,
    ap (λ ys. ys ++ eligible mode allow_equal st.cursor ms) (sym taken),
    ap (λ k. k + length (eligible mode allow_equal st.cursor ms)) processed,
    error,
  )
  round-Takes n (next rest st') ms st short (group, took, el, strict, positive, less) later =
      compose-Takes group ms rest st st' (handle_page env mode allow_equal n rest st') took el
        (later rest st' (omega arith) strict positive)

  pub handle_page-Takes :
      (laws : IsMode mode) (n : ℕ) (ms : List (Msg Entity)) (st : Copy Entity)
      → length ms ≤ n
      → IsStrict mode.less ms
      → All IsPositive ms
      → Takes st ms (handle_page env mode allow_equal n ms st)
  unfolding handle_page Takes
  handle_page-Takes laws zero [] st short strict positive =
      (refl, (sym (append_nil st.taken), omega arith, refl, refl, λ e. refl, inl refl))
  handle_page-Takes laws zero (m ∷ ms) st short strict positive = absurd (omega arith)
  handle_page-Takes laws (suc n) [] st short strict positive =
      (refl, (sym (append_nil st.taken), omega arith, refl, refl, λ e. refl, inl refl))
  handle_page-Takes laws (suc n) (m ∷ ms) st short strict positive =
      round-Takes n (page_round env mode allow_equal m ms st) (m ∷ ms) st short
        (page_round-Rounds env mode allow_equal laws m ms st strict positive)
        (λ rest st' a b c. handle_page-Takes laws n rest st' a b c)
