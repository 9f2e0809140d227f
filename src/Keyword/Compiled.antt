-- ===== src/Keyword/Compiled.antt =====
-- What compiled rules match is what the rules say.
use tgvive.Keyword.{
  Library, match_from, SeenKey, KeywordRule, put_first, compile_rule, re_key, match_rule, seen_key,
  MatchRule, txt_key, is_seen, compile_from, seen_key_same, match_any, compile_match_rules,
}
use tgvive.Text.{text_same-eq, Text, trim_space, text_same, contains_text}
use tgvive.Prelude.{List, Bool, false, ◌∷◌, not, ◌||◌, [], Option, ◌&&◌, ◌≡◌, arith, true, refl, ap}
use tgvive.Prelude.Results.{ok, err}

seen_key_same-eq : (j k : SeenKey) → seen_key_same j k ≡ true → j ≡ k
unfolding seen_key_same
seen_key_same-eq (re_key a) (re_key b) h = ap re_key (text_same-eq a b h)
seen_key_same-eq (txt_key a) (txt_key b) h = ap txt_key (text_same-eq a b h)
seen_key_same-eq (re_key a) (txt_key b) h = cc
seen_key_same-eq (txt_key a) (re_key b) h = cc

module _ {Err Regex : Type 0} (lib : Library Err Regex) where
  -- Whether a text, not empty, is hit by what a key stands for.
  unfoldable pub hits_key : Text → SeenKey → Bool
  hits_key text (re_key s) = elim (lib.compile s) [
    | ok re ↦ lib.match_string re text
    | err e ↦ false
  ]
  hits_key text (txt_key low) = not (text_same low []) && contains_text low (lib.to_lower text)

  hits_any_key : Text → List SeenKey → Bool
  hits_any_key text [] = false
  hits_any_key text (k ∷ ks) = hits_key text k || hits_any_key text ks

  -- A rule of a profile hits a text: its content without outer space is not empty, and either it is
  -- a regular expression that compiles and matches, or the text has it in lower case.
  unfoldable pub hits : Text → KeywordRule → Bool
  hits text r =
      let s = trim_space r.content in
      not (text_same s []) && hits_key text (seen_key lib r.is_regex s)

  unfoldable pub hits_any : Text → List KeywordRule → Bool
  hits_any text [] = false
  hits_any text (r ∷ rest) = hits text r || hits_any text rest

  match-compile_rule :
      (text s : Text) (is_regex : Bool) (others : List (MatchRule Regex) × Option Err)
      → match_from lib text (put_first lib (compile_rule lib is_regex s) others).0
        ≡ (hits_key text (seen_key lib is_regex s) || match_from lib text others.0)
  unfolding match_from put_first compile_rule match_rule hits_key seen_key
  match-compile_rule text s true others = ground arith
  match-compile_rule text s false others = ground arith

  -- Equal keys hit the same texts.
  hits_any_key-seen :
      (text : Text) (k : SeenKey) (seen : List SeenKey)
      → is_seen k seen ≡ true
      → (hits_key text k || hits_any_key text seen) ≡ hits_any_key text seen
  unfolding is_seen hits_any_key
  hits_any_key-seen text k [] h = cc
  hits_any_key-seen text k (j ∷ seen) h =
      ground (arith, h, hits_any_key-seen text k seen, seen_key_same-eq k j)

  -- With the keys that were seen, no hit is lost by leaving a rule out.
  compile_from-hits :
      (text : Text) (seen : List SeenKey) (rules : List KeywordRule)
      → (hits_any_key text seen || match_from lib text (compile_from lib seen rules).0)
        ≡ (hits_any_key text seen || hits_any text rules)
  unfolding compile_from hits hits_any hits_any_key match_from
  compile_from-hits text seen [] = refl
  compile_from-hits text seen (r ∷ rest) =
      let s = trim_space r.content in
      let key = seen_key lib r.is_regex s in
      ground (
        arith,
        compile_from-hits text seen rest,
        compile_from-hits text (key ∷ seen) rest,
        hits_any_key-seen text key seen,
        match-compile_rule text s r.is_regex (compile_from lib (key ∷ seen) rest),
      )

  -- The compiled list of rules hits a text exactly when the text is not empty and some rule of the
  -- list hits it: leaving out blank rules, repeated rules and expressions that do not compile loses
  -- nothing.
  pub match_any-compile :
      (text : Text) (rules : List KeywordRule)
      → match_any lib text (compile_match_rules lib rules).0
        ≡ (not (text_same text []) && hits_any text rules)
  unfolding match_any compile_match_rules hits_any_key
  match_any-compile text rules = ground (arith, compile_from-hits text [] rules)
