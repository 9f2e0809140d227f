-- ===== src/Strategy/Tests.antt =====
-- Witnesses on small lists of types.
use tgvive.Prelude.{
  ℕ, List, [], Option, ◌∷◌, false, none, ◌≡◌, if◌then◌else◌, refl, not, eqb, ◌&&◌, some, arith,
}
use tgvive.Text.{Text, text, trim_space}
use tgvive.Strategy.Lists.{IsDistinct, is_wanted, normalized_types}
use tgvive.Strategy.{
  resolve_allowed_types, Strategy, get_strategy, normalize_runtime_type_list, StrategyTask,
  set_strategy, type_key, is_runtime_type, int64_of, invalidate, raw_types, normalize_from,
  alias_of,
}
use tgvive.Prelude.Int.{ℤ, pos, eqb_ℤ, ◌<ℤ◌}
use tgvive.Filter.{has_type}
use tgvive.Strategy.Keys.{resolve_allowed_types-key}
use tgvive.Strategy.Cache.{get_strategy-after}

abbrev keep_case : Text → Text
keep_case s = s

abbrev some_types : List Text
some_types = text "photo" ∷ text " image" ∷ text "song" ∷ text "text" ∷ []

normalized_types_example :
    IsDistinct (normalize_runtime_type_list keep_case some_types)
    × ((t : Text)
        → has_type t (normalize_runtime_type_list keep_case some_types)
          ≡ is_wanted (type_key keep_case) is_runtime_type t some_types)
normalized_types_example = normalized_types keep_case some_types

abbrev task_of : List Text → StrategyTask
task_of types = record {
  strategy_id = 1;
  content_types = types;
  block_file_exts = [];
  allow_file_exts = [];
  delay_min_ms = pos 0;
  delay_max_ms = pos 0;
  daily_limit = pos 0;
  run_window = [];
  change_md5 = false;
  random_filename = false;
  enable_media_edit = false;
}

same_keys :
    (resolve_allowed_types keep_case (task_of (text "photo" ∷ [])) none).1
    ≡ (resolve_allowed_types keep_case (task_of (text "image" ∷ [])) none).1
unfolding resolve_allowed_types raw_types normalize_runtime_type_list normalize_from type_key
    trim_space alias_of
same_keys = refl

resolve_allowed_types-key_example :
    (resolve_allowed_types keep_case (task_of (text "photo" ∷ [])) none).0
    ≡ (resolve_allowed_types keep_case (task_of (text "image" ∷ [])) none).0
resolve_allowed_types-key_example =
    resolve_allowed_types-key keep_case (task_of (text "photo" ∷ [])) (task_of (text "image" ∷ []))
      none none same_keys

abbrev strategy_of : ℕ → Strategy
strategy_of n = record {
  id = n;
  allowed_types = [];
  content_types = [];
  block_file_exts = [];
  allow_file_exts = [];
  delay_min_ms = pos 0;
  delay_max_ms = pos 0;
  daily_limit = pos n;
  run_window = [];
  change_md5 = false;
  random_filename = false;
  enable_media_edit = false;
}

abbrev no_rows : ℤ → Option Strategy
no_rows id = none

get_strategy-after_example :
    ((get_strategy no_rows (pos 3) (set_strategy (strategy_of 3) [])).1 ≡ (
      if not (eqb 3 0) && eqb_ℤ (int64_of 3) (pos 3)
      then some (strategy_of 3)
      else (get_strategy no_rows (pos 3) []).1))
    × ((other : ℤ)
        → pos 0 <ℤ other
        → (get_strategy no_rows (pos 3) (invalidate other [])).1 ≡ (
            if eqb_ℤ other (pos 3)
            then (get_strategy no_rows (pos 3) []).1
            else (get_strategy no_rows (pos 3) []).1))
get_strategy-after_example = get_strategy-after no_rows (strategy_of 3) (pos 3) [] (omega arith)
