-- ===== src/Prelude/Map.antt =====
-- A Go map as an association list whose keys differ.
use Prim.Native.Nat.{suc, ◌≤◌, ◌<◌}
use mathlib.Core.Path.{◌≡◌, refl}
use mathlib.Core.Bool.{Bool, true}
use mathlib.Core.Option.{Option, none, some}
use mathlib.Core.List.{List, [], ◌∷◌}
use native.Mathlib.Omega.{arith}
use tgvive.Prelude.Tests.{Comparable, ◌==◌, if◌then◌else◌}
use tgvive.Prelude.Lists.{length}

abbrev pub Map {ℓ κ} : Type ℓ → Type κ → Type (ℓ ⊔ κ)
Map K V = List (K × V)

module _ {ℓ} {K : Type ℓ} ⦃keys : Comparable K⦄ where
  pub same_refl : (k : K) → (k == k) ≡ true
  same_refl k = (keys.same_iff k k).1 refl

module _ {ℓ κ} {K : Type ℓ} {V : Type κ} ⦃keys : Comparable K⦄ where
  -- v, ok := m[k]
  unfoldable pub lookup : K → Map K V → Option V
  lookup key [] = none
  lookup key ((k, v) ∷ rest) = if k == key then some v else lookup key rest

  -- m[k] = v
  unfoldable pub insert : K → V → Map K V → Map K V
  insert key v [] = (key, v) ∷ []
  insert key v ((k, old) ∷ rest) =
      if k == key then (key, v) ∷ rest else (k, old) ∷ insert key v rest

  -- delete(m, k)
  unfoldable pub delete : K → Map K V → Map K V
  delete k [] = []
  delete k ((j, w) ∷ m) = if j == k then delete k m else (j, w) ∷ delete k m

  -- The loop that deletes each key that passes a test.
  unfoldable pub delete_if : (K → Bool) → Map K V → Map K V
  delete_if p [] = []
  delete_if p ((j, w) ∷ m) = if p j then delete_if p m else (j, w) ∷ delete_if p m

  pub lookup-insert :
      (asked key : K) (v : V) (m : Map K V)
      → lookup asked (insert key v m) ≡ (if key == asked then some v else lookup asked m)
  unfolding lookup insert
  lookup-insert asked key v [] = refl
  lookup-insert asked key v ((k, old) ∷ rest) = ground (
    arith,
    lookup-insert asked key v rest,
    keys.same_iff k asked,
    keys.same_iff k key,
    keys.same_iff key asked,
  )

  pub lookup-delete :
      (j k : K) (m : Map K V) → lookup j (delete k m) ≡ (if k == j then none else lookup j m)
  unfolding lookup delete
  lookup-delete j k [] = ground arith
  lookup-delete j k ((i, w) ∷ m) =
      ground (arith, keys.same_iff k j, keys.same_iff i k, keys.same_iff i j, lookup-delete j k m)

  pub lookup-delete_if :
      (j : K) (p : K → Bool) (m : Map K V)
      → lookup j (delete_if p m) ≡ (if p j then none else lookup j m)
  unfolding lookup delete_if
  lookup-delete_if j p [] = ground arith
  lookup-delete_if j p ((i, w) ∷ m) = ground (arith, keys.same_iff i j, lookup-delete_if j p m)

  -- The size.
  pub length-insert_le : (k : K) (v : V) (m : Map K V) → length (insert k v m) ≤ suc (length m)
  unfolding insert
  length-insert_le k v [] = omega arith
  length-insert_le k v ((j, w) ∷ m) = ground (arith, length-insert_le k v m)

  pub length-delete_le : (k : K) (m : Map K V) → length (delete k m) ≤ length m
  unfolding delete
  length-delete_le k [] = omega arith
  length-delete_le k ((j, w) ∷ m) = ground (arith, length-delete_le k m)

  pub length-delete_lt :
      (k : K) (m : Map K V) (v : V) → lookup k m ≡ some v → length (delete k m) < length m
  unfolding lookup delete
  length-delete_lt k [] v h = cc
  length-delete_lt k ((j, w) ∷ m) v h = ground (arith, length-delete_le k m, length-delete_lt k m v)

  pub length-delete_if_le : (p : K → Bool) (m : Map K V) → length (delete_if p m) ≤ length m
  unfolding delete_if
  length-delete_if_le p [] = omega arith
  length-delete_if_le p ((j, w) ∷ m) = ground (arith, length-delete_if_le p m)

  -- A map in which nothing is found is empty.
  pub empty_of_lookup : (m : Map K V) → ((k : K) → lookup k m ≡ none) → m ≡ []
  unfolding lookup
  empty_of_lookup [] h = refl
  empty_of_lookup ((j, w) ∷ m) h = ground (arith, h j, same_refl j)

  -- No key stands twice.
  abbrev pub IsMap : Map K V → Type (ℓ ⊔ κ)
  IsMap [] = Unit
  IsMap ((j, w) ∷ m) = (lookup j m ≡ none) × IsMap m

  pub insert-IsMap : (k : K) (v : V) (m : Map K V) → IsMap m → IsMap (insert k v m)
  unfolding insert lookup
  insert-IsMap k v [] h = (refl, tt)
  insert-IsMap k v ((j, w) ∷ m) h =
      ground
        (arith, keys.same_iff j k, keys.same_iff k j, lookup-insert j k v m, insert-IsMap k v m h.1)

  pub delete-IsMap : (k : K) (m : Map K V) → IsMap m → IsMap (delete k m)
  unfolding delete lookup
  delete-IsMap k [] h = h
  delete-IsMap k ((j, w) ∷ m) h =
      ground (arith, keys.same_iff k j, lookup-delete j k m, delete-IsMap k m h.1)

  pub delete_if-IsMap : (p : K → Bool) (m : Map K V) → IsMap m → IsMap (delete_if p m)
  unfolding delete_if lookup
  delete_if-IsMap p [] h = h
  delete_if-IsMap p ((j, w) ∷ m) h = ground (arith, lookup-delete_if j p m, delete_if-IsMap p m h.1)
