-- ===== src/Keyword/Tests.antt =====
-- Runs of the keyword code, with a library whose regular expressions are texts that must occur.
use tgvive.Keyword.{
  Library, compile_match_rules, match_any, KeywordProfile, KeywordRule, compile_from, compile_rule,
  put_first, rules_of, seen_key, is_seen, seen_key_same, match_from, match_rule, replace_text,
  replace_loop, compile_replace_plain, compile_replace_from, pair_seen,
}
use tgvive.Prelude.{
  List, ℕ, false, ◌≡◌, map, ◌∷◌, not, if◌then◌else◌, true, [], leb, ◌&&◌, ◌+◌, length, refl,
}
use tgvive.Keyword.Policy.{
  check_keyword_policy, new_keyword_policy, check_merged, merged, apply_keyword_policy, policy_of,
  check-apply,
}
use tgvive.Text.{
  text, trim_space, Text, trim_left, trim_right, text_same, is_space, contains_text, has_prefix,
  replace_all, replace_from,
}
use tgvive.Prelude.Results.{ok, err}
use tgvive.Keyword.Compiled.{hits_any, match_any-compile}

abbrev plain : Library ℕ Text
plain = record {
  to_lower = λ s. map (λ c. if leb b'A' c && leb c b'Z' then c + 32 else c) s;
  compile = λ s. if text_same s (text "[") then err 7 else ok s;
  match_string = contains_text;
}

abbrev words : List KeywordRule
words =
    record { content = text " Spam "; is_regex = false }
    ∷ record { content = text "spam"; is_regex = false }
    ∷ record { content = text "["; is_regex = true }
    ∷ []

-- The second rule repeats the first, and the third does not compile.
compiles_one : length (compile_match_rules plain words).0 ≡ 1
unfolding compile_match_rules compile_from compile_rule put_first seen_key is_seen seen_key_same
    trim_space trim_left trim_right is_space
compiles_one = refl

match_any-compile_example :
    match_any plain (text "no SPAM") (compile_match_rules plain words).0
    ≡ (not (text_same (text "no SPAM") []) && hits_any plain (text "no SPAM") words)
match_any-compile_example = match_any-compile plain (text "no SPAM") words

abbrev profile : KeywordProfile ℕ
profile = record {
  id = 4;
  block_words = ok words;
  allow_words = err 3;
  replace_rules = ok (record { from = text "foo"; to = text "bar" } ∷ []);
}

replaces : (check_keyword_policy plain (text " a foo ") (profile ∷ [])) ≡ (text "a bar", true)
unfolding check_keyword_policy check_merged merged rules_of compile_match_rules compile_from
    compile_rule put_first seen_key is_seen seen_key_same match_any match_from match_rule
    contains_text has_prefix replace_text replace_loop replace_all replace_from
    compile_replace_plain compile_replace_from pair_seen trim_space trim_left trim_right is_space
replaces = refl

check-apply_example :
    let (message, skipped) =
      apply_keyword_policy plain {Entity = ℕ} (policy_of plain profile) (text "a foo") (1 ∷ []) in
    check_keyword_policy plain (text "a foo") (profile ∷ []) ≡ (message.0, not skipped)
unfolding new_keyword_policy trim_space trim_left trim_right is_space
check-apply_example =
    check-apply plain profile (policy_of plain profile) (text "a foo") (1 ∷ []) refl refl refl
