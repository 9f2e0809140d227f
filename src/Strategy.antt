-- ===== src/Strategy.antt =====
-- internal/engine/strategy_cache.go: the strategies in force, and the types and file suffixes that
-- they allow. The database and `strings.ToLower` are arguments. A strategy and a task have the fields
-- that this code reads; the copies of byte slices that Set makes only part it from its caller.
pub mod Lists
pub mod Keys
pub mod Cache
mod Tests
use tgvive.Prelude.{
  ℕ, List, if◌then◌else◌, Option, Bool, eqb, ◌∷◌, [], none, some, ◌||◌, not, false, ◌++◌, ◌&&◌,
}
use tgvive.Text.{Text, text_same, text, trim_space, has_prefix}
use tgvive.Prelude.Map.{Map, insert, lookup, delete}
use tgvive.Prelude.Int.{ℤ, leb_ℤ, pos, int_eq}
use tgvive.Prelude.Int64.{wrap64}
use tgvive.Filter.{has_type}

pub record Strategy : Type 0 where
  pub id : ℕ
  pub allowed_types : List Text
  pub content_types : List Text
  pub block_file_exts : List Text
  pub allow_file_exts : List Text
  pub delay_min_ms : ℤ
  pub delay_max_ms : ℤ
  pub daily_limit : ℤ
  pub run_window : Text
  pub change_md5 : Bool
  pub random_filename : Bool
  pub enable_media_edit : Bool

pub record StrategyTask : Type 0 where
  pub strategy_id : ℕ
  pub content_types : List Text
  pub block_file_exts : List Text
  pub allow_file_exts : List Text
  pub delay_min_ms : ℤ
  pub delay_max_ms : ℤ
  pub daily_limit : ℤ
  pub run_window : Text
  pub change_md5 : Bool
  pub random_filename : Bool
  pub enable_media_edit : Bool

abbrev pub StrategyCache : Type 0
StrategyCache = Map ℤ Strategy

-- `int64(id)` of an unsigned number.
abbrev pub int64_of : ℕ → ℤ
int64_of n = wrap64 (pos n)

unfoldable pub set_strategy : Strategy → StrategyCache → StrategyCache
set_strategy strategy c = if eqb strategy.id 0 then c else insert (int64_of strategy.id) strategy c

-- `db` is the database's answer for an ID.
unfoldable pub get_strategy :
    (ℤ → Option Strategy) → ℤ → StrategyCache → StrategyCache × Option Strategy
get_strategy db id c = if leb_ℤ id (pos 0) then (c, none) else elim (lookup id c) [
  | some st ↦ (c, some st)
  | none ↦ elim (db id) [
    | none ↦ (c, none)
    | some s ↦ (set_strategy s c, lookup id (set_strategy s c))
  ]
]

unfoldable pub invalidate : ℤ → StrategyCache → StrategyCache
invalidate id c = if leb_ℤ id (pos 0) then c else delete id c

unfoldable pub resolve_runtime_strategy :
    (ℤ → Option Strategy) → StrategyTask → StrategyCache → StrategyCache × Option Strategy
resolve_runtime_strategy db task c =
    if eqb task.strategy_id 0 then (c, none) else get_strategy db (int64_of task.strategy_id) c

-- runtimeTypeAliases
unfoldable pub alias_of : Text → Text
alias_of k =
    if text_same k (text "photo") || text_same k (text "picture") || text_same k (text "img")
    then text "image"
    else if text_same k (text "document")
    then text "file"
    else k

-- runtimeTypeWhitelist
abbrev pub runtime_types : List Text
runtime_types =
    text "text" ∷ text "image" ∷ text "video" ∷ text "audio" ∷ text "file" ∷ text "other" ∷ []

-- The loop of both normalisations: what stands for an entry, if it is kept and was not seen.
unfoldable pub normalize_from : (Text → Text) → (Text → Bool) → List Text → List Text → List Text
normalize_from key_of keeps seen [] = []
normalize_from key_of keeps seen (v ∷ rest) =
    let k = key_of v in
    let later = λ (known : List Text). normalize_from key_of keeps known rest in
    if not (keeps k) || has_type k seen then later seen else k ∷ later (k ∷ seen)

-- `strings.ContainsAny(k, " \t\r\n/\\")`
unfoldable pub has_bad_char : Text → Bool
has_bad_char [] = false
has_bad_char (c ∷ s) =
    eqb c 32 || eqb c 9 || eqb c 13 || eqb c 10 || eqb c 47 || eqb c 92 || has_bad_char s

-- `strings.Join(list, ",")`
unfoldable pub join_comma : List Text → Text
join_comma [] = []
join_comma (w ∷ []) = w
join_comma (w ∷ v ∷ rest) = w ++ b',' ∷ join_comma (v ∷ rest)

unfoldable pub is_runtime_type : Text → Bool
is_runtime_type k = has_type k runtime_types

unfoldable pub is_suffix : Text → Bool
is_suffix k = not (text_same k []) && not (text_same k (text ".")) && not (has_bad_char k)

-- The first list that is not empty.
unfoldable pub or_else : List Text → List Text → List Text
or_else [] other = other
or_else (v ∷ rest) other = v ∷ rest

unfoldable pub raw_types : StrategyTask → Option Strategy → List Text
raw_types task none = task.content_types
raw_types task (some st) = or_else (or_else st.allowed_types st.content_types) task.content_types

unfoldable pub suffixes_with_key : List Text → List Text → List Text × List Text × Text
suffixes_with_key [] [] = ([], [], text "all")
suffixes_with_key allow block = (allow, block, join_comma allow ++ b'|' ∷ join_comma block)

module _ (to_lower : Text → Text) where
  unfoldable pub type_key : Text → Text
  type_key v = alias_of (to_lower (trim_space v))

  unfoldable pub normalize_runtime_type_list : List Text → List Text
  normalize_runtime_type_list types = normalize_from type_key is_runtime_type [] types

  unfoldable pub suffix_key : Text → Text
  suffix_key v =
      let k = to_lower (trim_space v) in
      if text_same k [] || has_prefix (text ".") k then k else b'.' ∷ k

  unfoldable pub normalize_runtime_file_suffix_list : List Text → List Text
  normalize_runtime_file_suffix_list suffixes = normalize_from suffix_key is_suffix [] suffixes

  -- normalizeTypeSet of worker.go: the set as a list.
  unfoldable pub set_words : List Text → List Text
  set_words [] = []
  set_words (v ∷ rest) =
      let w = trim_space (to_lower v) in
      if text_same w [] then set_words rest else w ∷ set_words rest

  unfoldable pub normalize_type_set : List Text → Option (List Text)
  normalize_type_set types = elim (set_words types) [ [] ↦ none | w ∷ ws ↦ some (w ∷ ws) ]

  unfoldable pub types_with_key : List Text → Option (List Text) × Text
  types_with_key [] = (none, text "all")
  types_with_key (k ∷ rest) = (normalize_type_set (k ∷ rest), join_comma (k ∷ rest))

  unfoldable pub resolve_allowed_types : StrategyTask → Option Strategy → Option (List Text) × Text
  resolve_allowed_types task st = types_with_key (normalize_runtime_type_list (raw_types task st))

  unfoldable pub resolve_file_suffix_rules :
      StrategyTask → Option Strategy → List Text × List Text × Text
  resolve_file_suffix_rules task none =
      suffixes_with_key (normalize_runtime_file_suffix_list task.allow_file_exts)
        (normalize_runtime_file_suffix_list task.block_file_exts)
  resolve_file_suffix_rules task (some st) =
      suffixes_with_key (normalize_runtime_file_suffix_list st.allow_file_exts)
        (normalize_runtime_file_suffix_list st.block_file_exts)

unfoldable pub merge_hot_fields_into_task : StrategyTask → Option Strategy → StrategyTask
merge_hot_fields_into_task task none = task
merge_hot_fields_into_task task (some st) = record task {
  delay_min_ms = st.delay_min_ms;
  delay_max_ms = st.delay_max_ms;
  daily_limit = st.daily_limit;
  run_window = trim_space st.run_window;
  change_md5 = st.change_md5;
  random_filename = st.change_md5 && st.random_filename;
  enable_media_edit = st.enable_media_edit;
}
