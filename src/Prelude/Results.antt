-- ===== src/Prelude/Results.antt =====
-- Results of fallible code, with the error as a value.
use mathlib.Core.Option.{Option, none, some}

pub data Result {ℓ κ} (E : Type κ) (A : Type ℓ) : Type (ℓ ⊔ κ) where
  ok : A → Result E A
  err : E → Result E A

infixl 5 ◌>>=◌
abbrev pub ◌>>=◌ {ℓ κ ι} :
    {E : Type κ} {A : Type ℓ} {B : Type ι} → Result E A → (A → Result E B) → Result E B
ok a >>= next = next a
err e >>= next = err e

-- The value of an option, or an error in its place.
abbrev pub or_err {ℓ κ} : {E : Type κ} {A : Type ℓ} → Option A → E → Result E A
or_err none e = err e
or_err (some a) e = ok a

-- The error of a part, as one of the whole.
abbrev pub map_err {ℓ κ ι} :
    {E : Type κ} {F : Type ι} {A : Type ℓ} → (E → F) → Result E A → Result F A
map_err f (ok a) = ok a
map_err f (err e) = err (f e)
