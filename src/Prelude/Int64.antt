-- ===== src/Prelude/Int64.antt =====
-- Go's `int` and `int64`: 64 bits with wrap-around. A value is an integer, and an operation brings
-- its exact result back into the range.
use Prim.Native.Nat.{ℕ, ◌+◌, ◌-◌, ◌≤◌, ◌<◌, ◌%◌, ◌^◌}
use mathlib.Core.Path.{◌≡◌}
use native.Mathlib.Omega.{arith}
use tgvive.Prelude.Tests.{ltb, if◌then◌else◌}
use tgvive.Prelude.Int.{ℤ, pos, negsuc, pos_part, neg_part, ◌+ℤ◌, ◌-ℤ◌, ◌*ℤ◌, int_laws}

-- The value of a bit pattern.
abbrev from_bits : ℕ → ℤ
from_bits u = if ltb u (2 ^ 63) then pos u else negsuc (2 ^ 64 - u - 1)

unfoldable pub wrap64 : ℤ → ℤ
wrap64 z = from_bits ((pos_part z + (2 ^ 64 - neg_part z % 2 ^ 64)) % 2 ^ 64)

infixl 65 ◌+i◌ ◌-i◌
infixl 70 ◌*i◌
unfoldable pub ◌+i◌ : ℤ → ℤ → ℤ
a +i b = wrap64 (a +ℤ b)

unfoldable pub ◌-i◌ : ℤ → ℤ → ℤ
a -i b = wrap64 (a -ℤ b)

unfoldable pub ◌*i◌ : ℤ → ℤ → ℤ
a *i b = wrap64 (a *ℤ b)

-- The values that 64 bits hold.
abbrev pub InInt64 : ℤ → Type 0
InInt64 z = (pos_part z < 2 ^ 63) × (neg_part z ≤ 2 ^ 63)

pub wrap64_exact : (z : ℤ) → InInt64 z → wrap64 z ≡ z
unfolding wrap64
wrap64_exact z h = ground arith

pub wrap64-InInt64 : (z : ℤ) → InInt64 (wrap64 z)
unfolding wrap64
wrap64-InInt64 z = ground arith

pub +i_exact : (a b : ℤ) → InInt64 (a +ℤ b) → a +i b ≡ a +ℤ b
unfolding ◌+i◌
+i_exact a b h = wrap64_exact (a +ℤ b) h

pub -i_exact : (a b : ℤ) → InInt64 (a -ℤ b) → a -i b ≡ a -ℤ b
unfolding ◌-i◌
-i_exact a b h = wrap64_exact (a -ℤ b) h

pub *i_exact : (a b : ℤ) → InInt64 (a *ℤ b) → a *i b ≡ a *ℤ b
unfolding ◌*i◌
*i_exact a b h = wrap64_exact (a *ℤ b) h

pub +i-InInt64 : (a b : ℤ) → InInt64 (a +i b)
unfolding ◌+i◌
+i-InInt64 a b = wrap64-InInt64 (a +ℤ b)

-- A difference of two values that are not negative does not wrap.
pub -i_nonneg :
    (a b : ℤ) → InInt64 a → InInt64 b → neg_part a ≡ 0 → neg_part b ≡ 0 → a -i b ≡ a -ℤ b
-i_nonneg a b ha hb na nb = -i_exact a b (omega int_laws, omega int_laws)
