-- ===== src/Retry/Delay.antt =====
-- The bounds of the delay, and where the product of its doublings wraps.
use Prim.Native.Nat
use tgvive.Retry.{backoff, cut, shift_of, or_default, default_base, default_max}
use tgvive.Prelude.Int.{ℤ, pos, ◌≤ℤ◌, ◌<ℤ◌, ◌*ℤ◌, ◌-ℤ◌, int_laws, -ℤ_parts}
use tgvive.Prelude.{
  ℕ, ◌≤◌, ◌<◌, ◌⊎◌, ◌^◌, arith, ◌≡◌, Bool, true, ◌*◌, suc, leb, ◌&&◌, zero, refl, ◌∙◌,
}
use tgvive.Prelude.Int64.{◌-i◌, ◌*i◌, *i_exact, wrap64, -i_exact}

cut_bounds :
    (base max d : ℤ)
    → pos 0 <ℤ base
    → pos 0 <ℤ max
    → (base ≤ℤ cut base max d) × ((cut base max d ≤ℤ max) ⊎ (cut base max d ≡ base))
unfolding cut
cut_bounds base max d hb hm = ground arith

-- The delay is never less than the base and never more than the maximum, except that it is the base
-- where that is the greater; at every attempt, also where the product of the doublings wraps.
pub backoff_bounds :
    (attempt base max : ℤ)
    → let b = or_default base default_base in
      let m = or_default max default_max in
      (b ≤ℤ backoff attempt base max)
      × ((backoff attempt base max ≤ℤ m) ⊎ (backoff attempt base max ≡ b))
unfolding backoff
backoff_bounds attempt base max =
    cut_bounds (or_default base default_base) (or_default max default_max) _ (ground arith)
      (ground arith)

pow-le_30 : (k : ℕ) → k ≤ 30 → 2 ^ k ≤ 2 ^ 30
pow-le_30 k h = all_le 31 k (omega arith) refl
  where
    check : ℕ → Bool
    check zero = true
    check (suc n) = leb (2 ^ n) (2 ^ 30) && check n

    all_le : (n : ℕ) (j : ℕ) → j < n → check n ≡ true → 2 ^ j ≤ 2 ^ 30
    all_le zero j l c = absurd (omega arith)
    all_le (suc n) j l c = ground (arith, all_le n j)

shift_of-le : (attempt : ℤ) → shift_of attempt ≤ 30
unfolding shift_of
shift_of-le attempt = ground arith

product : (b p : ℕ) → b * p < 2 ^ 63 → pos b *i pos p ≡ pos (b * p)
unfolding ◌*ℤ◌
product b p h =
    let e : pos b *ℤ pos p ≡ pos (b * p) = ground arith in
    *i_exact (pos b) (pos p) (rw e (h, omega arith)) ∙ e

small_product : (b p : ℕ) → b < 2 ^ 33 → p ≤ 2 ^ 30 → b * p < 2 ^ 63
small_product b p h l = grind arith

cut_exact : (base max d : ℕ) → cut (pos base) (pos max) (pos d) ≡ pos (Nat.max base (Nat.min d max))
unfolding cut
cut_exact base max d = ground arith

pos_mul : (b p : ℕ) → pos b *ℤ pos p ≡ pos (b * p)
unfolding ◌*ℤ◌
pos_mul b p = ground arith

wrapped_product : (n : ℕ) → pos (n * 2 ^ 34) *i pos (2 ^ 30) ≡ pos 0
unfolding ◌*i◌ wrap64
wrapped_product n = rw (pos_mul (n * 2 ^ 34) (2 ^ 30)) (ground arith)

cut_zero : (base : ℕ) (max : ℤ) → 0 < base → pos 0 <ℤ max → cut (pos base) max (pos 0) ≡ pos base
unfolding cut
cut_zero base max h k = ground arith

late_shift : (attempt : ℕ) → 31 ≤ attempt → attempt < 2 ^ 63 → shift_of (pos attempt) ≡ 30
unfolding shift_of
late_shift attempt h l =
    let e : pos attempt -i pos 1 ≡ pos attempt -ℤ pos 1 =
      -i_exact (pos attempt) (pos 1) (omega int_laws, omega int_laws) in
    ground (arith, e, -ℤ_parts (pos attempt) (pos 1))

-- While the base is below 2^33 nanoseconds (8.5 seconds), no product wraps, and the delay is the
-- doubled base, cut at the maximum and never below the base.
pub backoff_exact :
    (attempt : ℤ) (base max : ℕ)
    → 0 < base
    → 0 < max
    → base < 2 ^ 33
    → backoff attempt (pos base) (pos max)
      ≡ pos (Nat.max base (Nat.min (base * 2 ^ shift_of attempt) max))
unfolding backoff
backoff_exact attempt base max hb hm h =
    let b : or_default (pos base) default_base ≡ pos base = ground arith in
    let m : or_default (pos max) default_max ≡ pos max = ground arith in
    let p = small_product base (2 ^ shift_of attempt) h (pow-le_30 _ (shift_of-le attempt)) in
    rw (b, m, product base (2 ^ shift_of attempt) p)
      (cut_exact base max (base * 2 ^ shift_of attempt))

-- From the thirty-first attempt on, a base that is a multiple of 2^34 nanoseconds (17 seconds) is
-- waited for once more: the product wraps to 0, and the delay falls back from the maximum to the base.
pub backoff_collapses :
    (attempt n : ℕ) (max : ℤ)
    → 31 ≤ attempt
    → attempt < 2 ^ 63
    → 0 < n
    → n < 2 ^ 29
    → backoff (pos attempt) (pos (n * 2 ^ 34)) max ≡ pos (n * 2 ^ 34)
unfolding backoff
backoff_collapses attempt n max ha hb hn hm =
    let b : or_default (pos (n * 2 ^ 34)) default_base ≡ pos (n * 2 ^ 34) = ground arith in
    rw (b, late_shift attempt ha hb, wrapped_product n)
      (cut_zero (n * 2 ^ 34) (or_default max default_max) (omega arith) (ground arith))
