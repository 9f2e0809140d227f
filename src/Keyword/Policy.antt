-- ===== src/Keyword/Policy.antt =====
-- The policy of a profile, and the two places that apply one.
use tgvive.Prelude.{
  ℕ, List, Option, Bool, if◌then◌else◌, ◌∷◌, ◌≡◌, eqb, true, none, not, [], ◌++◌, some, length,
  false, ◌||◌, ◌&&◌, arith, refl, ◌∙◌, subst, append_nil,
}
use tgvive.Keyword.{
  Library, KeywordProfile, MatchRule, KeywordRule, ReplaceRule, replace_text, match_any, rules_of,
  compile_match_rules, compile_replace_plain, first_err, err_of, replace_loop, match_from,
  compile_replace_from, compile_from,
}
use tgvive.Text.{Text, trim_space, text_same, replace_all}
use tgvive.Prelude.Results.{Result}

pub record KeywordPolicy (Regex : Type 0) : Type 0 where
  pub id : ℕ
  pub block : List (MatchRule Regex)
  pub allow : List (MatchRule Regex)
  pub replace : List ReplaceRule

replace_loop-changed :
    (rules : List ReplaceRule) (out : Text) → (replace_loop rules out true).1 ≡ true
unfolding replace_loop
replace_loop-changed [] out = refl
replace_loop-changed (r ∷ rest) out =
    let n = replace_all r.from r.to out in
    ground (arith, replace_loop-changed rest out, replace_loop-changed rest n)

-- A text that is not changed stays as it is.
replace_loop-unchanged :
    (rules : List ReplaceRule) (out : Text)
    → (replace_loop rules out false).1 ≡ false
    → (replace_loop rules out false).0 ≡ out
unfolding replace_loop
replace_loop-unchanged [] out h = refl
replace_loop-unchanged (r ∷ rest) out h =
    let n = replace_all r.from r.to out in
    ground (arith, h, replace_loop-unchanged rest out, replace_loop-changed rest n)

pub replace_text-unchanged :
    (rules : List ReplaceRule) (text : Text)
    → (replace_text rules text).1 ≡ false
    → (replace_text rules text).0 ≡ text
unfolding replace_text
replace_text-unchanged rules text h = ground (arith, h, replace_loop-unchanged rules text)

no_replacement :
    (rules : List ReplaceRule) (text : Text)
    → length rules ≡ 0
    → replace_text (compile_replace_plain rules) text ≡ (text, false)
unfolding replace_text replace_loop compile_replace_plain compile_replace_from
no_replacement [] text h = ground arith
no_replacement (r ∷ rest) text h = absurd (omega (arith, h))

module _ {Err Regex : Type 0} (lib : Library Err Regex) where
  -- The rules of a profile, compiled.
  unfoldable pub policy_of : KeywordProfile Err → KeywordPolicy Regex
  policy_of p = record {
    id = p.id;
    block = (compile_match_rules lib (rules_of p.block_words)).0;
    allow = (compile_match_rules lib (rules_of p.allow_words)).0;
    replace = compile_replace_plain (rules_of p.replace_rules);
  }

  -- The first of the errors of a profile: those of decoding come first.
  unfoldable pub policy_err : KeywordProfile Err → Option Err
  policy_err p = first_err (err_of p.block_words) (
      first_err (err_of p.allow_words) (
        first_err (err_of p.replace_rules) (
          first_err (compile_match_rules lib (rules_of p.block_words)).1
            (compile_match_rules lib (rules_of p.allow_words)).1)))

  -- newKeywordPolicy: no policy for a profile without an ID.
  unfoldable pub new_keyword_policy : KeywordProfile Err → Option (KeywordPolicy Regex) × Option Err
  new_keyword_policy p = if eqb p.id 0 then (none, none) else (some (policy_of p), policy_err p)

  unfoldable pub should_skip : KeywordPolicy Regex → Text → Bool
  should_skip k text =
      let trimmed = trim_space text in
      if match_any lib trimmed k.block
      then true
      else not (eqb (length k.allow) 0) && not (match_any lib trimmed k.allow)

  -- applyKeywordPolicyToMessage on a message's text and its entities: the two, and whether the
  -- message is skipped.
  unfoldable pub apply_keyword_policy {ℓ} :
      {Entity : Type ℓ} → KeywordPolicy Regex → Text → List Entity → (Text × List Entity) × Bool
  apply_keyword_policy k message entities =
      let (out, changed) = replace_text k.replace message in
      if should_skip k message
      then ((message, entities), true)
      else if changed
      then ((out, []), false)
      else ((message, entities), false)

  -- CheckKeywordPolicy merges the rules of some profiles.
  unfoldable pub merged :
      {A : Type 0} → (KeywordProfile Err → Result Err (List A)) → List (KeywordProfile Err) → List A
  merged f [] = []
  merged f (p ∷ ps) = rules_of (f p) ++ merged f ps

  -- CheckKeywordPolicy on a text that is trimmed: the new text, and whether it passes.
  unfoldable pub check_merged :
      Text → List KeywordRule → List KeywordRule → List ReplaceRule → Text × Bool
  check_merged text block allow replace =
      let (blocks, block_err) = compile_match_rules lib block in
      let (allows, allow_err) = compile_match_rules lib allow in
      let (out, changed) = replace_text (compile_replace_plain replace) text in
      if not (eqb (length block) 0) && match_any lib text blocks
      then (text, false)
      else if not (eqb (length allows) 0) && not (match_any lib text allows)
      then (text, false)
      else if eqb (length replace) 0
      then (text, true)
      else (out, true)

  unfoldable pub check_keyword_policy : Text → List (KeywordProfile Err) → Text × Bool
  check_keyword_policy text profiles =
      let trimmed = trim_space text in
      if text_same trimmed [] || eqb (length profiles) 0
      then (trimmed, true)
      else check_merged trimmed (merged (λ p. p.block_words) profiles)
          (merged (λ p. p.allow_words) profiles) (merged (λ p. p.replace_rules) profiles)

  no_match :
      (rules : List KeywordRule) (text : Text)
      → length rules ≡ 0
      → match_any lib text (compile_match_rules lib rules).0 ≡ false
  unfolding match_any match_from compile_match_rules compile_from
  no_match [] text h = ground arith
  no_match (r ∷ rest) text h = absurd (omega (arith, h))

  -- The merged rules are checked like the policy that is compiled of them.
  check_merged-apply {ℓ} :
      {Entity : Type ℓ} (id : ℕ) (text : Text) (entities : List Entity)
      (block allow : List KeywordRule) (replace : List ReplaceRule)
      → trim_space text ≡ text
      → let k : KeywordPolicy Regex = record {
        id = id;
        block = (compile_match_rules lib block).0;
        allow = (compile_match_rules lib allow).0;
        replace = compile_replace_plain replace;
      } in
        check_merged text block allow replace
        ≡ ((apply_keyword_policy k text entities).0.0, not (apply_keyword_policy k text entities).1)
  unfolding apply_keyword_policy should_skip check_merged
  check_merged-apply id text entities block allow replace trimmed = ground (
    arith,
    trimmed,
    no_match block text,
    no_replacement replace text,
    replace_text-unchanged (compile_replace_plain replace) text,
  )

  -- One profile is checked like its policy: on a text that has no outer space and is not empty, the
  -- two ways of applying a profile skip the same texts, and leave the same text otherwise.
  pub check-apply {ℓ} :
      {Entity : Type ℓ} (p : KeywordProfile Err) (k : KeywordPolicy Regex) (text : Text)
      (entities : List Entity)
      → trim_space text ≡ text
      → text_same text [] ≡ false
      → (new_keyword_policy p).0 ≡ some k
      → let (message, skipped) = apply_keyword_policy k text entities in
        check_keyword_policy text (p ∷ []) ≡ (message.0, not skipped)
  unfolding new_keyword_policy policy_of check_keyword_policy merged
  check-apply p k text entities trimmed full made =
      let blocks = append_nil (rules_of p.block_words) in
      let allows = append_nil (rules_of p.allow_words) in
      let pairs = append_nil (rules_of p.replace_rules) in
      let made_of : policy_of p ≡ k = ground (arith, made) in
      let checked : check_keyword_policy text (p ∷ [])
          ≡ check_merged text (rules_of p.block_words) (rules_of p.allow_words)
              (rules_of p.replace_rules) =
        ground (arith, trimmed, full, blocks, allows, pairs) in
      checked
      ∙ subst
          (λ k.
            check_merged text (rules_of p.block_words) (rules_of p.allow_words)
              (rules_of p.replace_rules)
            ≡ (
              (apply_keyword_policy k text entities).0.0,
              not (apply_keyword_policy k text entities).1,
            ))
          made_of
          (check_merged-apply p.id text entities (rules_of p.block_words) (rules_of p.allow_words)
            (rules_of p.replace_rules) trimmed)
