-- ===== src/Strategy/Keys.antt =====
-- The keys of the types and of the suffixes, read as lists.
use tgvive.Prelude.{
  ℕ, List, All, ◌∷◌, Bool, ◌≡◌, ◌++◌, if◌then◌else◌, false, [], arith, ◌∙◌, true, Bool-cases, eqb,
  ap, inl, ◌||◌, subst, inr, sym, Option, append_assoc,
}
use tgvive.Prelude.{refl}
use tgvive.Text.{Text, text, text_same, text_same-eq}
use tgvive.Strategy.{
  join_comma, is_runtime_type, normalize_from, runtime_types, types_with_key, resolve_allowed_types,
  suffixes_with_key, normalize_runtime_type_list, StrategyTask, Strategy, type_key, raw_types,
}
use tgvive.Filter.{has_type}

-- The words between the commas.
unfoldable pub put_first : ℕ → List Text → List Text
put_first c [] = (c ∷ []) ∷ []
put_first c (w ∷ ws) = (c ∷ w) ∷ ws

unfoldable pub split_comma : Text → List Text
split_comma [] = [] ∷ []
split_comma (c ∷ s) = let rest = split_comma s in if eqb c b',' then [] ∷ rest else put_first c rest

unfoldable pub has_comma : Text → Bool
has_comma [] = false
has_comma (c ∷ s) = eqb c b',' || has_comma s

abbrev pub HasNoComma : Text → Type 0
HasNoComma w = has_comma w ≡ false

split_word : (w : Text) → HasNoComma w → split_comma w ≡ w ∷ []
unfolding split_comma has_comma put_first
split_word [] h = refl
split_word (c ∷ w) h = ground (arith, split_word w, h)

split_first : (w s : Text) → HasNoComma w → split_comma (w ++ b',' ∷ s) ≡ w ∷ split_comma s
unfolding split_comma has_comma put_first
split_first [] s h = refl
split_first (c ∷ w) s h = ground (arith, split_first w s, h)

-- Words without commas come back from the text that joins them.
pub split_comma-join_comma :
    (w : Text) (ws : List Text)
    → All HasNoComma (w ∷ ws)
    → split_comma (join_comma (w ∷ ws)) ≡ w ∷ ws
unfolding join_comma
split_comma-join_comma w [] h = split_word w h.0
split_comma-join_comma w (v ∷ ws) h =
    split_first w (join_comma (v ∷ ws)) h.0 ∙ ap (λ l. w ∷ l) (split_comma-join_comma v ws h.1)

-- A word of a list has what all words of the list have.
All-has_type :
    (P : Text → Type 0) (t : Text) (ws : List Text) → All P ws → has_type t ws ≡ true → P t
unfolding has_type
All-has_type P t [] h e = absurd (cc)
All-has_type P t (w ∷ ws) h e = elim (Bool-cases (text_same t w)) [
  | inl q ↦ subst P (sym (text_same-eq t w q)) h.0
  | inr q ↦ All-has_type P t ws h.1 (rw q at e)
]

runtime_commas : All HasNoComma runtime_types
unfolding has_comma
runtime_commas = (refl, (refl, (refl, (refl, (refl, (refl, tt))))))

runtime_no_comma : (t : Text) → is_runtime_type t ≡ true → HasNoComma t
unfolding is_runtime_type
runtime_no_comma t e = All-has_type HasNoComma t runtime_types runtime_commas e

abbrev IsRuntimeType : Text → Type 0
IsRuntimeType t = is_runtime_type t ≡ true

kept_types :
    (key_of : Text → Text) (seen xs : List Text)
    → All IsRuntimeType (normalize_from key_of is_runtime_type seen xs)
unfolding normalize_from
kept_types key_of seen [] = tt
kept_types key_of seen (v ∷ rest) = elim (Bool-cases (is_runtime_type (key_of v))) [
  | inl e ↦ elim (Bool-cases (has_type (key_of v) seen)) [
    | inl f ↦ rw (e, f) (kept_types key_of seen rest)
    | inr f ↦ rw (e, f) (e, kept_types key_of (key_of v ∷ seen) rest)
  ]
  | inr e ↦ rw e (kept_types key_of seen rest)
]

no_commas : (ws : List Text) → All IsRuntimeType ws → All HasNoComma ws
no_commas [] h = tt
no_commas (w ∷ ws) h = (runtime_no_comma w h.0, no_commas ws h.1)

-- The words that a key names.
named : List Text → List Text
named [] = text "all" ∷ []
named (w ∷ ws) = w ∷ ws

module _ (to_lower : Text → Text) where
  key_names :
      (ws : List Text)
      → All IsRuntimeType ws
      → split_comma (types_with_key to_lower ws).1 ≡ named ws
  unfolding types_with_key named split_comma put_first
  key_names [] h = refl
  key_names (w ∷ ws) h = split_comma-join_comma w ws (no_commas (w ∷ ws) h)

  named_types :
      (xs ys : List Text)
      → All IsRuntimeType xs
      → All IsRuntimeType ys
      → named xs ≡ named ys
      → xs ≡ ys
  unfolding named is_runtime_type has_type
  named_types [] [] h k e = refl
  named_types [] (y ∷ ys) h k e = absurd (ground (arith, e, k.0))
  named_types (x ∷ xs) [] h k e = absurd (ground (arith, e, h.0))
  named_types (x ∷ xs) (y ∷ ys) h k e = e

  -- Whatever the tasks and strategies: if the keys of the types in force are the same, so are the
  -- types, so that a task which compares the keys misses no change.
  pub resolve_allowed_types-key :
      (task task' : StrategyTask) (st st' : Option Strategy)
      → (resolve_allowed_types to_lower task st).1 ≡ (resolve_allowed_types to_lower task' st').1
      → (resolve_allowed_types to_lower task st).0 ≡ (resolve_allowed_types to_lower task' st').0
  unfolding resolve_allowed_types normalize_runtime_type_list
  resolve_allowed_types-key task task' st st' e =
      let xs = normalize_from (type_key to_lower) is_runtime_type [] (raw_types task st) in
      let ys = normalize_from (type_key to_lower) is_runtime_type [] (raw_types task' st') in
      let h = kept_types (type_key to_lower) [] (raw_types task st) in
      let k = kept_types (type_key to_lower) [] (raw_types task' st') in
      ap (λ l. (types_with_key to_lower l).0)
        (named_types xs ys h k (sym (key_names xs h) ∙ ap split_comma e ∙ key_names ys k))

-- The same key stands for one suffix with a comma in it and for the two suffixes beside the comma.
pub suffix_keys_collide :
    (a b : Text) (rest block : List Text)
    → (suffixes_with_key (a ∷ b ∷ rest) block).2
      ≡ (suffixes_with_key ((a ++ b',' ∷ b) ∷ rest) block).2
unfolding suffixes_with_key join_comma
suffix_keys_collide a b [] block = refl
suffix_keys_collide a b (r ∷ rest) block =
    ap (λ x. x ++ b'|' ∷ join_comma block)
      (sym (append_assoc a (b',' ∷ b) (b',' ∷ join_comma (r ∷ rest))))
