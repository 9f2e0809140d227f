-- ===== src/History/Runs.antt =====
-- A copy, turn by turn: what it has taken is in order and was wanted, its cursor is at the last
-- message taken, and it comes nearer to its end.
-- How near a cursor is to the end: what is not passed over is nearer.
use tgvive.History.Data.{Mode, Env, Copy}
use tgvive.Prelude.Int.{ℤ}
use tgvive.History.Page.{IsMode}
use tgvive.Prelude.{
  ℕ, Bool, true, ◌≡◌, false, ◌≤◌, List, ◌<◌, All, [], ◌∷◌, length, ◌++◌, ◌+◌, subst, sym, refl,
  arith, ap, length-append,
}
use tgvive.History.Groups.{IsStrict, cursor_after, IsPositive, last_of, last_of-All}
use tgvive.Filter.{Msg}
use tgvive.History.Order.{
  IsStrict-append, All-append, after_last, IsStrict-append_left, All-append_left,
}

pub record IsMeasure {Entity : Type 0} (mode : Mode Entity) (Near : ℤ → Type 0) (distance : ℤ → ℕ)
    : Type 0 where
  pub closer :
      (cursor id : ℤ) → Near id → mode.skips true cursor id ≡ false → distance id ≤ distance cursor
  pub strictly :
      (cursor id : ℤ) → Near id → mode.skips false cursor id ≡ false → distance id < distance cursor

module _ {Err Entity : Type 0} (env : Env Err Entity) (mode : Mode Entity) (laws : IsMode mode)
    (start : ℤ) (allow_equal : Bool) where
  -- What was not passed over when the copy started.
  abbrev pub IsWanted : Msg Entity → Type 0
  IsWanted m = mode.skips allow_equal start m.id ≡ false

  -- The messages taken stand in the mode's order, so none is there twice, and all were
  -- wanted.
  abbrev pub InOrder : Copy Entity → Type 0
  InOrder st =
      IsStrict mode.less st.taken
      × All IsPositive st.taken
      × All IsWanted st.taken
      × (st.processed ≡ length st.taken)

  abbrev pub AtLast : Copy Entity → Type 0
  AtLast st =
      (cursor_after start st.taken ≡ st.cursor)
      × (st.taken ≡ [] → st.include_once ≡ allow_equal)
      × (st.include_once ≡ true → st.taken ≡ [])

  abbrev pub Invariant : Copy Entity → Type 0
  Invariant st = InOrder st × AtLast st

  -- What is new to a state comes after all that it has taken.
  new_after :
      (cursor : ℤ) (include : Bool) (taken new : List (Msg Entity))
      → IsStrict mode.less taken
      → All IsPositive taken
      → cursor_after start taken ≡ cursor
      → (include ≡ true → taken ≡ [])
      → All (λ x. mode.skips include cursor x.id ≡ false) new
      → All (λ x. All (λ y. mode.less x y ≡ true) new) taken
  new_after cursor include [] new strict positive at first keep = tt
  new_after cursor true (m ∷ ms) new strict positive at first keep = cc (first refl)
  new_after cursor false (m ∷ ms) new strict positive at first keep =
      after_last mode.less laws.less_trans m ms new strict (beyond new keep)
    where
      beyond :
          (ys : List (Msg Entity))
          → All (λ x. mode.skips false cursor x.id ≡ false) ys
          → All (λ y. mode.less (last_of m ms) y ≡ true) ys
      beyond [] k = tt
      beyond (y ∷ ys) k = (
        laws.later (last_of m ms) y (last_of-All IsPositive m ms positive)
            (subst (λ c. mode.skips false c y.id ≡ false) (sym at) k.0),
        beyond ys k.1,
      )

  new_in_scope :
      (cursor : ℤ) (include : Bool) (taken new : List (Msg Entity))
      → All IsPositive taken
      → All IsWanted taken
      → cursor_after start taken ≡ cursor
      → (taken ≡ [] → include ≡ allow_equal)
      → (include ≡ true → taken ≡ [])
      → All (λ x. mode.skips include cursor x.id ≡ false) new
      → All IsWanted new
  new_in_scope cursor include taken [] positive wanted at same first keep = tt
  new_in_scope cursor include [] (x ∷ xs) positive wanted at same first keep = (
    ground (arith, at, same refl, keep.0),
    new_in_scope cursor include [] xs positive wanted at same first keep.1,
  )
  new_in_scope cursor true (m ∷ ms) (x ∷ xs) positive wanted at same first keep = cc (first refl)
  new_in_scope cursor false (m ∷ ms) (x ∷ xs) positive wanted at same first keep = (
    laws.onward allow_equal start (last_of m ms) x (last_of-All IsPositive m ms positive)
        (last_of-All IsWanted m ms wanted)
        (subst (λ c. mode.skips false c x.id ≡ false) (sym at) keep.0),
    new_in_scope cursor false (m ∷ ms) xs positive wanted at same first keep.1,
  )

  -- The taken messages with the new ones, of which those of any state of the turn are a part.
  pub InOrder-part :
      (st st' : Copy Entity) (new left : List (Msg Entity))
      → Invariant st
      → IsStrict mode.less new
      → All IsPositive new
      → All (λ x. mode.skips st.include_once st.cursor x.id ≡ false) new
      → st.taken ++ new ≡ st'.taken ++ left
      → st'.processed + length left ≡ st.processed + length new
      → InOrder st'
  InOrder-part st st' new left ((strict, positive, wanted, count), (at, same, first)) snew pnew keep
        parts total =
      let after = new_after st.cursor st.include_once st.taken new strict positive at first keep in
      let whole = IsStrict-append mode.less st.taken new strict snew after in
      let pwhole = All-append IsPositive st.taken new positive pnew in
      let wnew =
        new_in_scope st.cursor st.include_once st.taken new positive wanted at same first keep in
      let wwhole = All-append IsWanted st.taken new wanted wnew in
      (
        IsStrict-append_left mode.less st'.taken left (subst (IsStrict mode.less) parts whole),
        All-append_left IsPositive st'.taken left (subst (All IsPositive) parts pwhole),
        All-append_left IsWanted st'.taken left (subst (All IsWanted) parts wwhole),
        omega (
          arith,
          ap length parts,
          length-append st.taken new,
          length-append st'.taken left,
          total,
          count,
        ),
      )
