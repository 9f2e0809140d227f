-- ===== src/Text.antt =====
-- Go's strings as lists of code points, and what the program uses of `strings` and `strconv`.
use Prim.Native.Char.{code}
use Prim.Native.String.{String}
use tgvive.Prelude.{
  zero, List, [], Bool, ℕ, ◌∷◌, Option, true, leb, if◌then◌else◌, none, some, eqb, ◌&&◌, ◌*◌, ◌^◌,
  false, ◌||◌, ◌+◌, ◌-◌, ltb, suc, length, ◌++◌, ◌≡◌, arith, refl,
}
use tgvive.Prelude.Int.{◌-ℤ◌, ℤ, pos}

abbrev pub Text : Type 0
Text = List ℕ

-- The code points of a literal.
abbrev pub text : String → Text
text String.[] = []
text (String.◌∷◌ c s) = code c ∷ text s

abbrev pub text_same : Text → Text → Bool
text_same [] [] = true
text_same (a ∷ s) (b ∷ t) = eqb a b && text_same s t
text_same _ _ = false

pub text_same-eq : (a b : Text) → text_same a b ≡ true → a ≡ b
text_same-eq [] [] e = refl
text_same-eq (a ∷ s) [] e = cc
text_same-eq [] (b ∷ t) e = cc
text_same-eq (a ∷ s) (b ∷ t) e = ground (arith, text_same-eq s t)

pub text_same_refl : (a : Text) → text_same a a ≡ true
text_same_refl [] = refl
text_same_refl (a ∷ s) = ground (arith, text_same_refl s)

-- unicode.IsSpace
unfoldable pub is_space : ℕ → Bool
is_space c =
    (leb 9 c && leb c 13)
    || eqb c 32
    || eqb c 0x85
    || eqb c 0xA0
    || eqb c 0x1680
    || (leb 0x2000 c && leb c 0x200a)
    || eqb c 0x2028
    || eqb c 0x2029
    || eqb c 0x202f
    || eqb c 0x205f
    || eqb c 0x3000

unfoldable pub trim_left : Text → Text
trim_left [] = []
trim_left (c ∷ s) = if is_space c then trim_left s else c ∷ s

-- Nothing is left of a text of spaces, and its last character stays otherwise.
unfoldable pub trim_right : Text → Text
trim_right [] = []
trim_right (c ∷ s) =
    let rest = trim_right s in
    elim rest [ [] ↦ (if is_space c then [] else c ∷ []) | d ∷ t ↦ c ∷ d ∷ t ]

-- strings.TrimSpace
unfoldable pub trim_space : Text → Text
unfolding trim_left trim_right is_space
trim_space s = trim_right (trim_left s)

-- strings.SplitN(s, sep, 2) for a separator of one character: the parts before and after its first
-- place, or nothing if it does not stand in the text.
unfoldable pub split_at : ℕ → Text → Option (Text × Text)
split_at sep [] = none
split_at sep (c ∷ s) =
    let rest = split_at sep s in
    if eqb c sep then some ([], s) else elim rest [ none ↦ none | some (a, b) ↦ some (c ∷ a, b) ]

-- strings.ReplaceAll(s, old, new) for one character by one character.
unfoldable pub replace_char : ℕ → ℕ → Text → Text
replace_char old fresh [] = []
replace_char old fresh (c ∷ s) = (if eqb c old then fresh else c) ∷ replace_char old fresh s

-- strings.ReplaceAll(s, old, "") for one character.
unfoldable pub remove_char : ℕ → Text → Text
remove_char old [] = []
remove_char old (c ∷ s) = if eqb c old then remove_char old s else c ∷ remove_char old s

unfoldable pub is_digit : ℕ → Bool
is_digit c = leb b'0' c && leb c b'9'

-- The value of a text of digits.
unfoldable pub digits_value : ℕ → Text → Option ℕ
digits_value acc [] = some acc
digits_value acc (c ∷ s) = if is_digit c then digits_value (acc * 10 + (c - b'0')) s else none

unfoldable pub number_of : Text → Option ℕ
number_of [] = none
number_of (c ∷ s) = digits_value 0 (c ∷ s)

-- strconv.Atoi: an optional sign and digits, within 64 bits.
signed : Bool → Option ℕ → Option ℤ
signed negative none = none
signed true (some n) = if leb n (2 ^ 63) then some (pos 0 -ℤ pos n) else none
signed false (some n) = if ltb n (2 ^ 63) then some (pos n) else none

unfoldable pub atoi : Text → Option ℤ
unfolding signed number_of digits_value is_digit ◌-ℤ◌
atoi [] = none
atoi (c ∷ s) =
    if eqb c b'-'
    then signed true (number_of s)
    else if eqb c b'+'
    then signed false (number_of s)
    else signed false (number_of (c ∷ s))

-- strings.HasPrefix
unfoldable pub has_prefix : Text → Text → Bool
has_prefix [] s = true
has_prefix (c ∷ p) [] = false
has_prefix (c ∷ p) (d ∷ s) = eqb c d && has_prefix p s

-- strings.Contains(s, sub)
unfoldable pub contains_text : Text → Text → Bool
contains_text sub [] = has_prefix sub []
contains_text sub (c ∷ s) = has_prefix sub (c ∷ s) || contains_text sub s

-- strings.ReplaceAll(s, old, new) for an old text that is not empty: at each place, from the left,
-- where the old text stands, the new one in its stead. `skip` characters are part of a place that
-- was replaced.
unfoldable pub replace_from : ℕ → Text → Text → Text → Text
replace_from skip old fresh [] = []
replace_from (suc skip) old fresh (c ∷ s) = replace_from skip old fresh s
replace_from zero old fresh (c ∷ s) =
    let inside = replace_from (length old - 1) old fresh s in
    let after = replace_from 0 old fresh s in
    if has_prefix old (c ∷ s) then fresh ++ inside else c ∷ after

unfoldable pub replace_all : Text → Text → Text → Text
replace_all old fresh s = replace_from 0 old fresh s
