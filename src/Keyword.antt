-- ===== src/Keyword.antt =====
-- internal/engine/keyword_policy.go, keyword_apply.go and the keyword part of filter.go: which
-- messages a task skips by their text, and the texts that it replaces. Lower case and regular
-- expressions are Go's: `to_lower`, `compile` and `match_string` are arguments. The rules are taken
-- as JSON decodes them, or as the error that decoding gives.
pub mod Compiled
pub mod Policy
mod Tests
use tgvive.Text.{Text, text_same, trim_space, replace_all, contains_text}
use tgvive.Prelude.{
  ℕ, Bool, List, Option, false, some, none, [], not, ◌∷◌, if◌then◌else◌, true, ◌||◌, ◌&&◌, ◌++◌,
}
use tgvive.Prelude.Results.{Result, ok, err}

pub record KeywordRule : Type 0 where
  pub content : Text
  pub is_regex : Bool

pub record ReplaceRule : Type 0 where
  pub from : Text
  pub to : Text

-- The lists of a profile, decoded.
pub record KeywordProfile (Err : Type 0) : Type 0 where
  pub id : ℕ
  pub block_words : Result Err (List KeywordRule)
  pub allow_words : Result Err (List KeywordRule)
  pub replace_rules : Result Err (List ReplaceRule)

-- What Go's libraries do.
pub record Library (Err Regex : Type 0) : Type 0 where
  pub to_lower : Text → Text
  pub compile : Text → Result Err Regex
  pub match_string : Regex → Text → Bool

-- The key under which a rule was seen: the text and the ending "\x00re" or "\x00txt".
pub data SeenKey : Type 0 where
  re_key : Text → SeenKey
  txt_key : Text → SeenKey

unfoldable pub seen_key_same : SeenKey → SeenKey → Bool
seen_key_same (re_key a) (re_key b) = text_same a b
seen_key_same (txt_key a) (txt_key b) = text_same a b
seen_key_same _ _ = false

unfoldable pub is_seen : SeenKey → List SeenKey → Bool
is_seen k [] = false
is_seen k (j ∷ js) = seen_key_same k j || is_seen k js

pub record MatchRule (Regex : Type 0) : Type 0 where
  pub raw : Text
  pub lower : Text
  pub re : Option Regex

-- `firstErr`, with an error that comes before the others.
unfoldable pub first_err : {Err : Type 0} → Option Err → Option Err → Option Err
first_err none later = later
first_err (some e) later = some e

unfoldable pub err_of : {Err A : Type 0} → Result Err A → Option Err
err_of (ok a) = none
err_of (err e) = some e

-- What a failed decoding leaves: no rules.
unfoldable pub rules_of : {Err A : Type 0} → Result Err (List A) → List A
rules_of (ok rules) = rules
rules_of (err e) = []

module _ {Err Regex : Type 0} (lib : Library Err Regex) where
  unfoldable pub seen_key : Bool → Text → SeenKey
  seen_key true s = re_key s
  seen_key false s = txt_key (lib.to_lower s)

  -- A rule that is new, compiled.
  unfoldable pub compile_rule : Bool → Text → Result Err (MatchRule Regex)
  compile_rule true s = elim (lib.compile s) [
    | ok re ↦ ok (record { raw = s; lower = []; re = some re })
    | err e ↦ err e
  ]
  compile_rule false s = ok (record { raw = s; lower = lib.to_lower s; re = none })

  -- A compiled rule before the others, or its error before theirs.
  unfoldable pub put_first :
      Result Err (MatchRule Regex)
      → List (MatchRule Regex) × Option Err
      → List (MatchRule Regex) × Option Err
  put_first (ok r) (out, e) = (r ∷ out, e)
  put_first (err e) (out, later) = (out, some e)

  -- The loop of `compileMatchRules`, with the keys that were seen.
  unfoldable pub compile_from :
      List SeenKey → List KeywordRule → List (MatchRule Regex) × Option Err
  compile_from seen [] = ([], none)
  compile_from seen (r ∷ rest) =
      let s = trim_space r.content in
      let key = seen_key r.is_regex s in
      let skipped = compile_from seen rest in
      let kept = compile_from (key ∷ seen) rest in
      if text_same s []
      then skipped
      else if is_seen key seen
      then skipped
      else put_first (compile_rule r.is_regex s) kept

  unfoldable pub compile_match_rules : List KeywordRule → List (MatchRule Regex) × Option Err
  compile_match_rules rules = compile_from [] rules

  unfoldable pub match_rule : Text → MatchRule Regex → Bool
  match_rule text r = elim r.re [
    | some re ↦ lib.match_string re text
    | none ↦ not (text_same r.lower []) && contains_text r.lower (lib.to_lower text)
  ]

  unfoldable pub match_from : Text → List (MatchRule Regex) → Bool
  match_from text [] = false
  match_from text (r ∷ rest) = match_rule text r || match_from text rest

  unfoldable pub match_any : Text → List (MatchRule Regex) → Bool
  match_any text rules = not (text_same text []) && match_from text rules

-- The loop of `compileReplacePlain`, with the pairs that were seen.
unfoldable pub pair_seen : Text → Text → List ReplaceRule → Bool
pair_seen from to [] = false
pair_seen from to (r ∷ rest) =
    text_same (from ++ 0 ∷ to) (r.from ++ 0 ∷ r.to) || pair_seen from to rest

unfoldable pub compile_replace_from : List ReplaceRule → List ReplaceRule → List ReplaceRule
compile_replace_from seen [] = []
compile_replace_from seen (r ∷ rest) =
    let rule : ReplaceRule = record { from = trim_space r.from; to = r.to } in
    let skipped = compile_replace_from seen rest in
    let kept = compile_replace_from (rule ∷ seen) rest in
    if text_same rule.from []
    then skipped
    else if pair_seen rule.from rule.to seen
    then skipped
    else rule ∷ kept

unfoldable pub compile_replace_plain : List ReplaceRule → List ReplaceRule
compile_replace_plain rules = compile_replace_from [] rules

-- The loop of `replaceText`, and whether a rule has changed the text.
unfoldable pub replace_loop : List ReplaceRule → Text → Bool → Text × Bool
replace_loop [] out changed = (out, changed)
replace_loop (r ∷ rest) out changed =
    let n = replace_all r.from r.to out in
    let same = replace_loop rest out changed in
    let next = replace_loop rest n true in
    if text_same r.from [] then same else if text_same n out then same else next

unfoldable pub replace_text : List ReplaceRule → Text → Text × Bool
replace_text rules text = if text_same text [] then (text, false) else replace_loop rules text false
