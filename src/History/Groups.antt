-- ===== src/History/Groups.antt =====
-- What the grouping of a page into albums keeps of it.
use tgvive.Filter.{Msg}
use tgvive.Prelude.Int.{ℤ, leb_ℤ, pos}
use tgvive.Prelude.{
  Bool, List, ◌∷◌, if◌then◌else◌, All, ◌≡◌, [], true, false, not, length, ◌++◌, ◌≤◌, arith, refl,
  ◌+◌, ◌∙◌, ap, append_assoc, length-append, ◌≢◌, ◌⊎◌, inr, inl,
}
use tgvive.History.Data.{split_group, put_group, in_group, Copy}

module _ {Entity : Type 0} where
  -- The messages that pass a test, in order.
  abbrev pub pick : (Msg Entity → Bool) → List (Msg Entity) → List (Msg Entity)
  pick p [] = []
  pick p (m ∷ ms) = if p m then m ∷ pick p ms else pick p ms

  -- Each message stands before all that follow it.
  abbrev pub IsStrict : (Msg Entity → Msg Entity → Bool) → List (Msg Entity) → Type 0
  IsStrict less [] = Unit
  IsStrict less (m ∷ ms) = All (λ x. less m x ≡ true) ms × IsStrict less ms

  abbrev pub IsPositive : Msg Entity → Type 0
  IsPositive m = leb_ℤ m.id (pos 0) ≡ false

  abbrev pub HasDistinctIds : List (Msg Entity) → Type 0
  HasDistinctIds [] = Unit
  HasDistinctIds (m ∷ ms) = All (λ x. m.id ≢ x.id) ms × HasDistinctIds ms

  abbrev pub last_of : Msg Entity → List (Msg Entity) → Msg Entity
  last_of m [] = m
  last_of m (x ∷ xs) = last_of x xs

  -- Where the cursor stands after a group.
  abbrev pub cursor_after : ℤ → List (Msg Entity) → ℤ
  cursor_after cursor [] = cursor
  cursor_after cursor (m ∷ ms) = (last_of m ms).id

  pub cursor_after-append :
      (cursor : ℤ) (xs ys : List (Msg Entity))
      → cursor_after (cursor_after cursor xs) ys ≡ cursor_after cursor (xs ++ ys)
  cursor_after-append cursor [] ys = refl
  cursor_after-append cursor (x ∷ []) [] = refl
  cursor_after-append cursor (x ∷ []) (y ∷ ys) = refl
  cursor_after-append cursor (x ∷ z ∷ xs) ys = cursor_after-append cursor (z ∷ xs) ys

  -- A group is taken whole, and the mode of the turn stays.
  abbrev pub TakesGroup : Copy Entity → List (Msg Entity) → Copy Entity → Type 0
  TakesGroup st group st' =
      (st'.taken ≡ st.taken ++ group)
      × (st'.processed ≡ st.processed + length group)
      × (st'.cursor ≡ cursor_after st.cursor group)
      × (st'.include_once ≡ st.include_once)
      × (group ≡ [] → st'.advanced ≡ st.advanced)
      × ((group ≡ []) ⊎ (st'.advanced ≡ true))

  -- Two groups in a row.
  pub TakesGroup-append :
      (xs ys : List (Msg Entity)) (st mid st' : Copy Entity)
      → TakesGroup st xs mid
      → TakesGroup mid ys st'
      → TakesGroup st (xs ++ ys) st'
  TakesGroup-append xs ys st mid st' (t, p, c, i, a, m) (t', p', c', i', a', m') = (
    t' ∙ ap (λ zs. zs ++ ys) t ∙ append_assoc st.taken xs ys,
    omega (arith, length-append xs ys),
    c' ∙ ap (λ k. cursor_after k ys) c ∙ cursor_after-append st.cursor xs ys,
    i' ∙ i,
    still xs a a',
    moved m' m,
  )
    where
      still :
          (zs : List (Msg Entity))
          → (zs ≡ [] → mid.advanced ≡ st.advanced)
          → (ys ≡ [] → st'.advanced ≡ mid.advanced)
          → zs ++ ys ≡ []
          → st'.advanced ≡ st.advanced
      still [] h k e = k e ∙ h refl
      still (z ∷ zs) h k e = cc

      moved :
          (ys ≡ []) ⊎ (st'.advanced ≡ true)
          → (xs ≡ []) ⊎ (mid.advanced ≡ true)
          → (xs ++ ys ≡ []) ⊎ (st'.advanced ≡ true)
      moved (inr q) _ = inr q
      moved (inl e) (inr q) = inr (a' e ∙ q)
      moved (inl e) (inl f) = inl (rw (e, f))

  pub last_of-All :
      (P : Msg Entity → Type 0) (m : Msg Entity) (ms : List (Msg Entity))
      → All P (m ∷ ms)
      → P (last_of m ms)
  last_of-All P m [] h = h.0
  last_of-All P m (x ∷ xs) h = last_of-All P x xs h.1

  module _ (skipped : ℤ → Bool) (gid : ℤ) where
    -- The three things that may become of a first message: it ends the group, it is passed over, or
    -- it is taken into the group.
    split_group-cases {κ} :
        (P : List (Msg Entity) × List (Msg Entity) → Type κ) (m : Msg Entity)
        (ms : List (Msg Entity))
        → P ([], m ∷ ms)
        → P (split_group skipped gid ms)
        → (skipped m.id ≡ false
            → P (m ∷ (split_group skipped gid ms).0, (split_group skipped gid ms).1))
        → P (split_group skipped gid (m ∷ ms))
    unfolding split_group put_group
    split_group-cases P m ms out over in_it =
        elim (in_group gid m)
          as (λ i.
            P (
              if i
              then put_group (skipped m.id) m (split_group skipped gid ms)
              else ([], m ∷ ms))) [ false ↦ out | true ↦ taken (skipped m.id) refl ]
      where
        taken : (b : Bool) → skipped m.id ≡ b → P (put_group b m (split_group skipped gid ms))
        taken true e = over
        taken false e = in_it e

    pub split_group-All :
        (P : Msg Entity → Type 0) (ms : List (Msg Entity))
        → All P ms
        → All P (split_group skipped gid ms).0 × All P (split_group skipped gid ms).1
    unfolding split_group
    split_group-All P [] h = (tt, tt)
    split_group-All P (m ∷ ms) h =
        let (a, b) = split_group-All P ms h.1 in
        split_group-cases (λ s. All P s.0 × All P s.1) m ms (tt, h) (a, b) (λ e. ((h.0, a), b))

    pub split_group-pick :
        (ms : List (Msg Entity))
        → pick (λ m. not (skipped m.id)) ms
          ≡ (split_group skipped gid ms).0
            ++ pick (λ m. not (skipped m.id)) (split_group skipped gid ms).1
    unfolding split_group put_group
    split_group-pick [] = refl
    split_group-pick (m ∷ ms) = ground (arith, split_group-pick ms)

    pub split_group-kept :
        (ms : List (Msg Entity)) → All (λ m. skipped m.id ≡ false) (split_group skipped gid ms).0
    unfolding split_group
    split_group-kept [] = tt
    split_group-kept (m ∷ ms) =
        split_group-cases (λ s. All (λ m. skipped m.id ≡ false) s.0) m ms tt (split_group-kept ms)
          (λ e. (e, split_group-kept ms))

    pub split_group-IsStrict :
        (less : Msg Entity → Msg Entity → Bool) (ms : List (Msg Entity))
        → IsStrict less ms
        → IsStrict less (split_group skipped gid ms).0
          × IsStrict less (split_group skipped gid ms).1
          × All
              (λ g. All (λ r. less g r ≡ true) (split_group skipped gid ms).1)
              (split_group skipped gid ms).0
    unfolding split_group
    split_group-IsStrict less [] h = (tt, tt, tt)
    split_group-IsStrict less (m ∷ ms) h =
        let (a, b, c) = split_group-IsStrict less ms h.1 in
        let (d, e) = split_group-All (λ x. less m x ≡ true) ms h.0 in
        split_group-cases
          (λ s.
            IsStrict less s.0 × IsStrict less s.1 × All (λ g. All (λ r. less g r ≡ true) s.1) s.0)
          m ms (tt, h, tt) (a, b, c) (λ k. ((d, a), b, (e, c)))

    pub split_group-length :
        (ms : List (Msg Entity)) → length (split_group skipped gid ms).1 ≤ length ms
    unfolding split_group put_group
    split_group-length [] = omega arith
    split_group-length (m ∷ ms) = ground (arith, split_group-length ms)
