-- ===== src/History/Laws.antt =====
-- The three modes fit the loop over a page, where IDs are positive and in the mode's order.
use tgvive.History.Modes.{
  max_in_group, min_from, newer, passed, min_in_group, old_to_new, catch_up, new_to_old,
}
use tgvive.Filter.{older, Msg}
use tgvive.Prelude.{List, ◌∷◌, All, ◌≡◌, arith, [], true, refl}
use tgvive.History.{Bounds}
use tgvive.Prelude.Int.{ℤ, eqb_ℤ_iff, leb_ℤ, eq_of_parts}
use tgvive.History.Groups.{IsStrict, IsPositive, last_of}
use tgvive.History.Page.{IsMode}

module _ {Entity : Type 0} where
  max_in_group-last :
      (m : Msg Entity) (ms : List (Msg Entity))
      → IsStrict older (m ∷ ms)
      → All IsPositive (m ∷ ms)
      → (max_in_group (m ∷ ms) ≡ (last_of m ms).id) × (leb_ℤ m.id (last_of m ms).id ≡ true)
  unfolding max_in_group older
  max_in_group-last m [] strict positive = ground arith
  max_in_group-last m (x ∷ xs) strict positive =
      ground (arith, max_in_group-last x xs strict.1 positive.1)

  min_from-last :
      (m : Msg Entity) (ms : List (Msg Entity))
      → IsStrict newer (m ∷ ms)
      → min_from m.id ms ≡ (last_of m ms).id
  unfolding min_from newer
  min_from-last m [] strict = refl
  min_from-last m (x ∷ xs) strict = ground (arith, min_from-last x xs strict.1)

  pub old_to_new-IsMode : (b : Bounds) → IsMode (old_to_new {Entity = Entity} b)
  unfolding older passed
  old_to_new-IsMode b = record {
    keeps =
        λ allow_equal cursor m x h k. ground (arith, eqb_ℤ_iff x.id m.id, eqb_ℤ_iff x.id cursor);
    edge_last = λ m ms strict positive. (max_in_group-last m ms strict positive).0;
    less_trans = λ x y z h k. ground arith;
    less_total = λ x y h k. ground (arith, eq_of_parts x.id y.id);
    later = λ m x p h. ground (arith, eqb_ℤ_iff x.id m.id);
    onward =
        λ allow_equal cursor m x p h k. ground (arith, eqb_ℤ_iff x.id m.id, eqb_ℤ_iff x.id cursor);
  }

  pub catch_up-IsMode : (since latest : ℤ) → IsMode (catch_up {Entity = Entity} since latest)
  unfolding older passed
  catch_up-IsMode since latest = record {
    keeps =
        λ allow_equal cursor m x h k. ground (arith, eqb_ℤ_iff x.id m.id, eqb_ℤ_iff x.id cursor);
    edge_last = λ m ms strict positive. (max_in_group-last m ms strict positive).0;
    less_trans = λ x y z h k. ground arith;
    less_total = λ x y h k. ground (arith, eq_of_parts x.id y.id);
    later = λ m x p h. ground (arith, eqb_ℤ_iff x.id m.id);
    onward =
        λ allow_equal cursor m x p h k. ground (arith, eqb_ℤ_iff x.id m.id, eqb_ℤ_iff x.id cursor);
  }

  pub new_to_old-IsMode : (b : Bounds) → IsMode (new_to_old {Entity = Entity} b)
  unfolding newer min_in_group
  new_to_old-IsMode b = record {
    keeps = λ allow_equal cursor m x h k. ground arith;
    edge_last = λ m ms strict positive. min_from-last m ms strict;
    less_trans = λ x y z h k. ground arith;
    less_total = λ x y h k. ground (arith, eq_of_parts x.id y.id);
    later = λ m x p h. ground (arith, eqb_ℤ_iff x.id m.id);
    onward =
        λ allow_equal cursor m x p h k. ground (arith, eqb_ℤ_iff x.id m.id, eqb_ℤ_iff x.id cursor);
  }
