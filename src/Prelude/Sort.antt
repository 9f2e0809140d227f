-- ===== src/Prelude/Sort.antt =====
-- Go's `sort.Slice` by a strict order, as insertion: which order it gives to elements that the order
-- does not part is not used.
use mathlib.Core.Bool.{Bool, true, false}
use mathlib.Core.List.{List, [], ◌∷◌}
use mathlib.Core.Path.{◌≡◌, refl, ap, ◌∙◌}
use Prim.Native.Nat.{suc}
use native.Mathlib.Omega.{arith}
use tgvive.Prelude.Tests.{if◌then◌else◌}
use tgvive.Prelude.Lists.{All, length}

module _ {ℓ} {A : Type ℓ} (less : A → A → Bool) where
  unfoldable pub insert_sorted : A → List A → List A
  insert_sorted x [] = x ∷ []
  insert_sorted x (y ∷ ys) =
      let rest = insert_sorted x ys in if less y x then y ∷ rest else x ∷ y ∷ ys

  unfoldable pub sort_slice : List A → List A
  sort_slice [] = []
  sort_slice (x ∷ xs) = insert_sorted x (sort_slice xs)

  -- No later element is less than an earlier one.
  abbrev pub IsSorted : List A → Type 0
  IsSorted [] = Unit
  IsSorted (x ∷ xs) = All (λ y. less y x ≡ false) xs × IsSorted xs

  pub insert_sorted-All {κ} :
      (P : A → Type κ) (x : A) (ys : List A) → P x → All P ys → All P (insert_sorted x ys)
  unfolding insert_sorted
  insert_sorted-All P x [] p h = (p, tt)
  insert_sorted-All P x (y ∷ ys) p h =
      elim (less y x) as (λ b. All P (if b then y ∷ insert_sorted x ys else x ∷ y ∷ ys)) [
        | true ↦ (h.0, insert_sorted-All P x ys p h.1)
        | false ↦ (p, h)
      ]

  -- What holds of all elements holds of all sorted.
  pub sort_slice-All {κ} : (P : A → Type κ) (xs : List A) → All P xs → All P (sort_slice xs)
  unfolding sort_slice
  sort_slice-All P [] h = tt
  sort_slice-All P (x ∷ xs) h = insert_sorted-All P x (sort_slice xs) h.0 (sort_slice-All P xs h.1)

  insert_sorted-length : (x : A) (ys : List A) → length (insert_sorted x ys) ≡ suc (length ys)
  unfolding insert_sorted
  insert_sorted-length x [] = omega arith
  insert_sorted-length x (y ∷ ys) = ground (arith, insert_sorted-length x ys)

  pub sort_slice-length : (xs : List A) → length (sort_slice xs) ≡ length xs
  unfolding sort_slice
  sort_slice-length [] = refl
  sort_slice-length (x ∷ xs) =
      insert_sorted-length x (sort_slice xs) ∙ ap suc (sort_slice-length xs)
