-- ===== src/History/Order.antt =====
-- Lists of messages in a mode's order: what is picked from them, their prefixes, and what is added at
-- the end.
use tgvive.Filter.{Msg}
use tgvive.Prelude.{
  Bool, List, All, ◌≡◌, true, ◌++◌, ◌∷◌, if◌then◌else◌, Bool-cases, [], inl, false, inr,
}
use tgvive.History.Groups.{IsStrict, pick, last_of, last_of-All}

module _ {Entity : Type 0} where
  pub pick-All :
      (P : Msg Entity → Type 0) (p : Msg Entity → Bool) (ms : List (Msg Entity))
      → All P ms
      → All P (pick p ms)
  pick-All P p [] h = tt
  pick-All P p (m ∷ ms) h = elim (p m) as (λ b. All P (if b then m ∷ pick p ms else pick p ms)) [
    | true ↦ (h.0, pick-All P p ms h.1)
    | false ↦ pick-All P p ms h.1
  ]

  pub pick_passes :
      (p : Msg Entity → Bool) (ms : List (Msg Entity)) → All (λ m. p m ≡ true) (pick p ms)
  pick_passes p [] = tt
  pick_passes p (m ∷ ms) = elim (Bool-cases (p m)) [
    | inl e ↦ rw e (e, pick_passes p ms)
    | inr e ↦ rw e (pick_passes p ms)
  ]

  pub All-mono :
      (P Q : Msg Entity → Type 0) (ms : List (Msg Entity))
      → ((m : Msg Entity) → P m → Q m)
      → All P ms
      → All Q ms
  All-mono P Q [] f h = tt
  All-mono P Q (m ∷ ms) f h = (f m h.0, All-mono P Q ms f h.1)

  pub All-append_left :
      (P : Msg Entity → Type 0) (xs ys : List (Msg Entity)) → All P (xs ++ ys) → All P xs
  All-append_left P [] ys h = tt
  All-append_left P (x ∷ xs) ys h = (h.0, All-append_left P xs ys h.1)

  pub All-append :
      (P : Msg Entity → Type 0) (xs ys : List (Msg Entity)) → All P xs → All P ys → All P (xs ++ ys)
  All-append P [] ys h k = k
  All-append P (x ∷ xs) ys h k = (h.0, All-append P xs ys h.1 k)

  module _ (less : Msg Entity → Msg Entity → Bool) where
    pub pick-IsStrict :
        (p : Msg Entity → Bool) (ms : List (Msg Entity))
        → IsStrict less ms
        → IsStrict less (pick p ms)
    pick-IsStrict p [] h = tt
    pick-IsStrict p (m ∷ ms) h =
        elim (p m) as (λ b. IsStrict less (if b then m ∷ pick p ms else pick p ms)) [
          | true ↦ (pick-All (λ x. less m x ≡ true) p ms h.0, pick-IsStrict p ms h.1)
          | false ↦ pick-IsStrict p ms h.1
        ]

    pub IsStrict-append_left :
        (xs ys : List (Msg Entity)) → IsStrict less (xs ++ ys) → IsStrict less xs
    IsStrict-append_left [] ys h = tt
    IsStrict-append_left (x ∷ xs) ys h =
        (All-append_left (λ y. less x y ≡ true) xs ys h.0, IsStrict-append_left xs ys h.1)

    pub IsStrict-append :
        (xs ys : List (Msg Entity))
        → IsStrict less xs
        → IsStrict less ys
        → All (λ x. All (λ y. less x y ≡ true) ys) xs
        → IsStrict less (xs ++ ys)
    IsStrict-append [] ys h k a = k
    IsStrict-append (x ∷ xs) ys h k a =
        (All-append (λ y. less x y ≡ true) xs ys h.0 a.0, IsStrict-append xs ys h.1 k a.1)

    -- What comes after the last message comes after all of them.
    module _
        (trans : (x y z : Msg Entity) → less x y ≡ true → less y z ≡ true → less x z ≡ true) where
      all_before :
          (m : Msg Entity) (ms : List (Msg Entity)) (y : Msg Entity)
          → IsStrict less (m ∷ ms)
          → less (last_of m ms) y ≡ true
          → less m y ≡ true
      all_before m [] y h k = k
      all_before m (x ∷ xs) y h k =
          trans m (last_of x xs) y (last_of-All (λ z. less m z ≡ true) x xs h.0) k

      after_first :
          (m : Msg Entity) (ms ys : List (Msg Entity))
          → IsStrict less (m ∷ ms)
          → All (λ y. less (last_of m ms) y ≡ true) ys
          → All (λ y. less m y ≡ true) ys
      after_first m ms [] h k = tt
      after_first m ms (y ∷ ys) h k = (all_before m ms y h k.0, after_first m ms ys h k.1)

      pub after_last :
          (m : Msg Entity) (ms ys : List (Msg Entity))
          → IsStrict less (m ∷ ms)
          → All (λ y. less (last_of m ms) y ≡ true) ys
          → All (λ x. All (λ y. less x y ≡ true) ys) (m ∷ ms)
      after_last m [] ys h k = (k, tt)
      after_last m (x ∷ xs) ys h k = (after_first m (x ∷ xs) ys h k, after_last x xs ys h.1 k)
