-- ===== src/History/Sorting.antt =====
-- A page of messages with different IDs, sorted, is in the order of the mode.
use tgvive.History.Data.{Mode}
use tgvive.History.Page.{IsMode}
use tgvive.Prelude.{
  insert_sorted, sort_slice, List, All, ◌≢◌, ◌∷◌, ◌≡◌, sort_slice-All, true, [], Bool-cases, inl,
  insert_sorted-All, inr,
}
use tgvive.Filter.{Msg}
use tgvive.History.Groups.{HasDistinctIds, IsStrict}

module _ {Entity : Type 0} (mode : Mode Entity) (laws : IsMode mode) where
  insert_sorted-IsStrict :
      (x : Msg Entity) (ys : List (Msg Entity))
      → All (λ y. x.id ≢ y.id) ys
      → IsStrict mode.less ys
      → IsStrict mode.less (insert_sorted mode.less x ys)
  unfolding insert_sorted
  insert_sorted-IsStrict x [] d h = (tt, tt)
  insert_sorted-IsStrict x (y ∷ ys) d h = elim (Bool-cases (mode.less y x)) [
    | inl e ↦ rw e (
      insert_sorted-All mode.less (λ z. mode.less y z ≡ true) x ys e h.0,
      insert_sorted-IsStrict x ys d.1 h.1,
    )
    | inr e ↦ rw e (let first = laws.less_total x y d.0 e in ((first, after first ys h.0), h))
  ]
    where
      after :
          mode.less x y ≡ true
          → (zs : List (Msg Entity)) → All (λ z. mode.less y z ≡ true) zs
          → All (λ z. mode.less x z ≡ true) zs
      after first [] a = tt
      after first (z ∷ zs) a = (laws.less_trans x y z first a.0, after first zs a.1)

  pub sort_slice-IsStrict :
      (ms : List (Msg Entity)) → HasDistinctIds ms → IsStrict mode.less (sort_slice mode.less ms)
  unfolding sort_slice
  sort_slice-IsStrict [] d = tt
  sort_slice-IsStrict (m ∷ ms) d =
      insert_sorted-IsStrict m (sort_slice mode.less ms)
        (sort_slice-All mode.less (λ y. m.id ≢ y.id) ms d.0) (sort_slice-IsStrict ms d.1)
