-- ===== src/Stats/View.antt =====
-- The contents of the ring as a list, read from the oldest event on, and lists cut at either end.
use native.Mathlib.Nat
use native.Mathlib.Decide.{dec_lt}
use tgvive.Prelude.{
  ℕ, List, ◌<◌, ◌+◌, drop, [], length, ◌%◌, ◌≡◌, suc, ◌++◌, ◌∷◌, ◌-◌, ◌⊎◌, arith, ap, ◌≤◌, zero,
  inl, refl, length-append, inr, length-drop, ◌∙◌, drop-append_le,
}
use tgvive.Stats.Ring.{LogRing, LogEvent, copy_events}

-- The first `n` elements, and the last `n`.
unfoldable pub first {ℓ} : {A : Type ℓ} → ℕ → List A → List A
first zero xs = []
first (suc n) [] = []
first (suc n) (x ∷ xs) = x ∷ first n xs

unfoldable pub last {ℓ} : {A : Type ℓ} → ℕ → List A → List A
last n xs = drop (length xs - n) xs

abbrev pub contents : LogRing → List LogEvent
contents r = copy_events r 0 r.size

-- An index of the ring is the sum or has gone around once.
pub wrapped : (a c : ℕ) → a < c + c → ((a % c ≡ a) × (a < c)) ⊎ ((a % c ≡ a - c) × (c ≤ a))
wrapped a c h = elim (dec_lt a c) [
  | yes p ↦ inl (Nat.mod-eq_of_lt p, p)
  | no p ↦
      (let q : c ≤ a = omega arith in
        let l : a - c < c = omega arith in inr (Nat.mod-eq-sub-mod q ∙ Nat.mod-eq_of_lt l, q))
]

-- The event at an index of the ring's contents.
unfoldable pub event_at : LogRing → ℕ → LogEvent
event_at r j = r.buf ((r.start + j) % r.cap)

unfoldable pub view : (ℕ → LogEvent) → ℕ → ℕ → List LogEvent
view f i zero = []
view f i (suc n) = f i ∷ view f (suc i) n

pub copy_events-view : (r : LogRing) (i n : ℕ) → copy_events r i n ≡ view (event_at r) i n
unfolding copy_events view event_at
copy_events-view r i zero = refl
copy_events-view r i (suc n) = rw (copy_events-view r (suc i) n) refl

pub view_snoc : (f : ℕ → LogEvent) (i n : ℕ) → view f i (suc n) ≡ view f i n ++ f (i + n) ∷ []
unfolding view
view_snoc f i zero = let e : i + 0 ≡ i = omega arith in rw e refl
view_snoc f i (suc n) =
    let e : suc i + n ≡ i + suc n = omega arith in rw (view_snoc f (suc i) n, e) refl

pub zero_add : (n : ℕ) → 0 + n ≡ n
zero_add n = omega arith

pub view-agree :
    (f g : ℕ → LogEvent) (i k n : ℕ)
    → ((j : ℕ) → j < n → f (i + j) ≡ g (k + j))
    → view f i n ≡ view g k n
unfolding view
view-agree f g i k zero h = refl
view-agree f g i k (suc n) h =
    let first_eq : f i ≡ g k = ground (arith, h 0) in
    let ih = view-agree f g (suc i) (suc k) n (λ j p.
      let a : i + suc j ≡ suc i + j = omega arith in
      let b : k + suc j ≡ suc k + j = omega arith in rw (a, b) at (h (suc j) (omega arith))) in
    rw (first_eq, ih) refl

pub view-length : (f : ℕ → LogEvent) (i n : ℕ) → length (view f i n) ≡ n
unfolding view
view-length f i zero = refl
view-length f i (suc n) = ap suc (view-length f (suc i) n)

pub drop-view : (f : ℕ → LogEvent) (k i n : ℕ) → drop k (view f i n) ≡ view f (i + k) (n - k)
unfolding view
drop-view f zero i n =
    let e : i + 0 ≡ i = omega arith in let d : n - 0 ≡ n = omega arith in rw (e, d) refl
drop-view f (suc k) i zero = let d : 0 - suc k ≡ 0 = omega arith in rw d refl
drop-view f (suc k) i (suc n) =
    let e : suc i + k ≡ i + suc k = omega arith in
    let d : suc n - suc k ≡ n - k = omega arith in rw (drop-view f k (suc i) n, e, d) refl

pub contents-view : (r : LogRing) → contents r ≡ view (event_at r) 0 r.size
contents-view r = copy_events-view r 0 r.size

pub drop_nil {ℓ} : {A : Type ℓ} (n : ℕ) → drop {A = A} n [] ≡ []
drop_nil zero = refl
drop_nil (suc n) = refl

pub drop-drop {ℓ} : {A : Type ℓ} (m n : ℕ) (xs : List A) → drop m (drop n xs) ≡ drop (n + m) xs
drop-drop m zero xs = rw (zero_add m) refl
drop-drop {A} m (suc n) [] = rw (drop_nil {A = A} m, drop_nil {A = A} (suc n + m)) refl
drop-drop m (suc n) (x ∷ xs) =
    let e : suc n + m ≡ suc (n + m) = omega arith in rw e (drop-drop m n xs)

pub last_short {ℓ} : {A : Type ℓ} (n : ℕ) (xs : List A) → length xs ≤ n → last n xs ≡ xs
unfolding last
last_short n xs h = let e : length xs - n ≡ 0 = omega arith in rw e refl

-- What was cut off before is cut off again.
pub last-append {ℓ} :
    {A : Type ℓ} (n : ℕ) (xs ys : List A) → last n (last n xs ++ ys) ≡ last n (xs ++ ys)
unfolding last
last-append n xs ys =
    let k = length xs - n in
    let e = length-append (drop k xs) ys in
    let f = length-append xs ys in
    let d : length (drop k xs ++ ys) - n ≡ length xs + length ys - k - n =
      omega (arith, e, length-drop k xs) in
    let g : k + (length xs + length ys - k - n) ≡ length (xs ++ ys) - n = omega (arith, f) in
    let l : k ≤ length xs = omega arith in
    rw d (
      rw⁻¹ (drop-append_le k xs ys l)
        (drop-drop (length xs + length ys - k - n) k (xs ++ ys) ∙ ap (λ m. drop m (xs ++ ys)) g))

pub contents-length : (r : LogRing) → length (contents r) ≡ r.size
contents-length r = rw (contents-view r) (view-length (event_at r) 0 r.size)
