-- ===== src/Strategy/Lists.antt =====
-- What the normalised lists hold.
use tgvive.Prelude.{
  List, Bool, ◌∷◌, false, ◌≡◌, ◌&&◌, true, [], ◌||◌, ap, arith, not, if◌then◌else◌,
}
use tgvive.Prelude.{refl}
use tgvive.Text.{Text, text_same, text_same-eq, text_same_refl}
use tgvive.Strategy.{normalize_runtime_type_list, normalize_from, type_key, is_runtime_type}
use tgvive.Filter.{has_type}

-- Whether a word stands for an entry of a list and is kept.
unfoldable pub is_wanted : (Text → Text) → (Text → Bool) → Text → List Text → Bool
is_wanted key_of keeps t [] = false
is_wanted key_of keeps t (v ∷ rest) =
    (text_same (key_of v) t && keeps t) || is_wanted key_of keeps t rest

-- No word stands twice.
abbrev pub IsDistinct : List Text → Type 0
IsDistinct [] = Unit
IsDistinct (k ∷ rest) = (has_type k rest ≡ false) × IsDistinct rest

same_word : (a b c : Text) → text_same a b ≡ true → text_same a c ≡ text_same b c
same_word a b c e = ap (λ x. text_same x c) (text_same-eq a b e)

same_swap : (a b : Text) → text_same a b ≡ text_same b a
same_swap [] [] = refl
same_swap [] (y ∷ b) = refl
same_swap (x ∷ a) [] = refl
same_swap (x ∷ a) (y ∷ b) = ground (arith, same_swap a b)

module _ (key_of : Text → Text) (keeps : Text → Bool) where
  has_type-normalize_from :
      (t : Text) (seen xs : List Text)
      → has_type t (normalize_from key_of keeps seen xs)
        ≡ (is_wanted key_of keeps t xs && not (has_type t seen))
  unfolding normalize_from is_wanted has_type
  has_type-normalize_from t seen [] = refl
  has_type-normalize_from t seen (v ∷ rest) = ground (
    arith,
    has_type-normalize_from t seen rest,
    has_type-normalize_from t (key_of v ∷ seen) rest,
    text_same-eq (key_of v) t,
    same_swap (key_of v) t,
    text_same_refl t,
  )

  normalize_from-IsDistinct :
      (seen xs : List Text) → IsDistinct (normalize_from key_of keeps seen xs)
  unfolding normalize_from has_type
  normalize_from-IsDistinct seen [] = tt
  normalize_from-IsDistinct seen (v ∷ rest) =
      elim (not (keeps (key_of v)) || has_type (key_of v) seen)
        as (λ b. IsDistinct (
          if b
          then normalize_from key_of keeps seen rest
          else key_of v ∷ normalize_from key_of keeps (key_of v ∷ seen) rest)) [
            | true ↦ normalize_from-IsDistinct seen rest
            | false ↦ (
              ground (
                arith,
                has_type-normalize_from (key_of v) (key_of v ∷ seen) rest,
                text_same_refl (key_of v),
              ),
              normalize_from-IsDistinct (key_of v ∷ seen) rest,
            )
          ]

module _ (to_lower : Text → Text) where
  -- The list of types in force has no word twice, and it has exactly the types for which an entry
  -- stands, once it is trimmed, lowered and freed of its alias.
  pub normalized_types :
      (types : List Text)
      → IsDistinct (normalize_runtime_type_list to_lower types)
        × ((t : Text)
            → has_type t (normalize_runtime_type_list to_lower types)
              ≡ is_wanted (type_key to_lower) is_runtime_type t types)
  unfolding normalize_runtime_type_list has_type
  normalized_types types = (
    normalize_from-IsDistinct (type_key to_lower) is_runtime_type [] types,
    λ t. ground (arith, has_type-normalize_from (type_key to_lower) is_runtime_type t [] types),
  )
