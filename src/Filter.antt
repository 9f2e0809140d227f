-- ===== src/Filter.antt =====
-- internal/engine/filter.go from fileSuffixAllowed on, and the counting of what a message costs in
-- internal/engine/quota.go: which messages of an album are sent, with which caption. A message is a
-- tg.Message as far as this code reads it. What depends on the Telegram types of its media
-- (DetectContentType, documentFilenameLower, convertMessageMediaToInput, extractReplyToSourceMsgID)
-- is an argument.
pub mod Plan
mod Tests
use tgvive.Prelude.Int.{ℤ, ltb_ℤ, pos, eqb_ℤ}
use tgvive.Text.{Text, text, text_same, trim_space}
use tgvive.Prelude.{
  Option, List, Bool, ℕ, false, not, true, if◌then◌else◌, ◌&&◌, ◌∷◌, some, [], none, ◌||◌, ◌+◌, suc,
  eqb, length, sort_slice, ◌++◌,
}

module _ (Entity : Type 0) where
  pub record Msg : Type 0 where
    pub id : ℤ
    pub grouped_id : ℤ
    pub has_media : Bool
    pub message : Text
    pub entities : List Entity

-- What a media is turned into for sending: itself, or one of two errors.
pub data Converted : Type 0 where
  converted : Converted
  unsupported : Converted
  unreadable : Converted

pub record Media (Entity : Type 0) : Type 0 where
  pub content_type : Msg Entity → Text
  pub file_name : Msg Entity → Text
  pub convert : Msg Entity → Converted
  pub is_reply : Msg Entity → Bool

-- The rules in force, as the strategy's cache gives them.
pub record Rules : Type 0 where
  pub allowed_types : Option (List Text)
  pub allow_suffixes : List Text
  pub block_suffixes : List Text
  pub keep_reply : Bool

unfoldable pub is_blank : Text → Bool
is_blank s = text_same (trim_space s) []

-- strings.HasSuffix
unfoldable pub has_suffix : Text → Text → Bool
has_suffix suffix [] = text_same suffix []
has_suffix suffix (c ∷ s) = text_same suffix (c ∷ s) || has_suffix suffix s

unfoldable pub any_suffix : Text → List Text → Bool
any_suffix name [] = false
any_suffix name (suffix ∷ rest) =
    (not (text_same suffix []) && has_suffix suffix name) || any_suffix name rest

unfoldable pub match_any_file_suffix : Text → List Text → Bool
match_any_file_suffix name suffixes = not (text_same name []) && any_suffix name suffixes

unfoldable pub no_rules : List Text → Bool
no_rules [] = true
no_rules (s ∷ rest) = false

unfoldable pub file_suffix_allowed : Text → List Text → List Text → Bool
file_suffix_allowed name allow block =
    if no_rules allow && no_rules block
    then true
    else if text_same name []
    then no_rules allow
    else if match_any_file_suffix name block
    then false
    else no_rules allow || match_any_file_suffix name allow

unfoldable pub has_type : Text → List Text → Bool
has_type t [] = false
has_type t (u ∷ us) = text_same t u || has_type t us

unfoldable pub type_allowed : Option (List Text) → Text → Bool
type_allowed none t = true
type_allowed (some types) t = has_type t types

pub record MediaGroupPlan (Entity : Type 0) : Type 0 where
  pub media : List (Msg Entity)
  pub text : Option (Msg Entity)
  pub need : ℕ
  pub skipped : ℕ
  pub caption : Text
  pub has_media : Bool

unfoldable pub is_converted : Converted → Bool
is_converted converted = true
is_converted unsupported = false
is_converted unreadable = false

-- The sending of a media in quotaSendableCount: an unsupported one leaves its text.
unfoldable pub sendable_media : Converted → Text → ℕ
sendable_media converted message = 1
sendable_media unsupported message = if is_blank message then 0 else 1
sendable_media unreadable message = 0

module _ {Entity : Type 0} where
  unfoldable pub any_media : List (Msg Entity) → Bool
  any_media [] = false
  any_media (msg ∷ rest) = msg.has_media || any_media rest

  -- The loop that looks for the message with the caption, with the one so far.
  unfoldable pub better_caption : Msg Entity → Option (Msg Entity) → Option (Msg Entity)
  better_caption msg none = some msg
  better_caption msg (some best) =
      if ltb_ℤ (pos 0) msg.id && (eqb_ℤ best.id (pos 0) || ltb_ℤ msg.id best.id)
      then some msg
      else some best

  unfoldable pub caption_from : List (Msg Entity) → Option (Msg Entity) → Option (Msg Entity)
  caption_from [] best = best
  caption_from (msg ∷ rest) best =
      caption_from rest (if is_blank msg.message then best else better_caption msg best)

  unfoldable pub older : Msg Entity → Msg Entity → Bool
  older a b = ltb_ℤ a.id b.id

  -- The caption alone, where text may be sent and no media is kept.
  unfoldable pub text_only : Rules → Option (Msg Entity) → Option (Msg Entity)
  text_only rules none = none
  text_only rules (some caption) =
      if type_allowed rules.allowed_types (text "text")
      then some (record caption { has_media = false; grouped_id = pos 0 })
      else none

  -- The first message takes the caption if it has no text.
  unfoldable pub with_caption : Option (Msg Entity) → List (Msg Entity) → List (Msg Entity)
  with_caption none kept = kept
  with_caption (some caption) [] = []
  with_caption (some caption) (first ∷ rest) =
      if is_blank first.message
      then record first { message = caption.message; entities = caption.entities } ∷ rest
      else first ∷ rest

  unfoldable pub caption_text : Option (Msg Entity) → Text
  caption_text none = []
  caption_text (some msg) = msg.message

  unfoldable pub count_of : Option (Msg Entity) → ℕ
  count_of none = 0
  count_of (some msg) = 1

  -- What is sent: the media that are kept, or the caption alone.
  unfoldable pub fill_plan :
      Rules
      → Option (Msg Entity)
      → List (Msg Entity)
      → MediaGroupPlan Entity
      → MediaGroupPlan Entity
  fill_plan rules caption [] plan = record plan {
    text = text_only rules caption;
    need = count_of (text_only rules caption);
  }
  fill_plan rules caption (first ∷ rest) plan = record plan {
    media = with_caption caption (first ∷ rest);
    need = suc (length rest);
  }

module _ {Entity : Type 0} (lib : Media Entity) where
  -- The tests on the type of a message and on the suffix of its file.
  unfoldable pub content_allowed : Rules → Msg Entity → Bool
  content_allowed rules msg =
      type_allowed rules.allowed_types (lib.content_type msg)
      && (not (text_same (lib.content_type msg) (text "file"))
          || file_suffix_allowed (lib.file_name msg) rules.allow_suffixes rules.block_suffixes)

  unfoldable pub is_refused_file : Rules → Msg Entity → Bool
  is_refused_file rules msg =
      text_same (lib.content_type msg) (text "file")
      && not (file_suffix_allowed (lib.file_name msg) rules.allow_suffixes rules.block_suffixes)

  -- A round of the loop over the messages, with what is kept and how many are skipped so far. Each
  -- test that fails counts the message as skipped and goes on with the next.
  unfoldable pub keep_one : Rules → Msg Entity → List (Msg Entity) × ℕ → List (Msg Entity) × ℕ
  keep_one rules msg (kept, skipped) =
      if not msg.has_media
      then (kept, skipped + 1)
      else if not (type_allowed rules.allowed_types (lib.content_type msg))
      then (kept, skipped + 1)
      else if is_refused_file rules msg
      then (kept, skipped + 1)
      else if not (is_converted (lib.convert msg))
      then (kept, skipped + 1)
      else (kept ++ msg ∷ [], skipped)

  unfoldable pub keep_loop :
      Rules → List (Msg Entity) → List (Msg Entity) × ℕ → List (Msg Entity) × ℕ
  keep_loop rules [] acc = acc
  keep_loop rules (msg ∷ rest) acc = keep_loop rules rest (keep_one rules msg acc)

  unfoldable pub plan_media_group : Rules → List (Msg Entity) → MediaGroupPlan Entity
  plan_media_group rules msgs =
      let caption = caption_from msgs none in
      let (kept, skipped) = keep_loop rules msgs ([], 0) in
      fill_plan rules caption (sort_slice older kept) (record {
        media = [];
        text = none;
        need = 0;
        skipped = skipped;
        caption = caption_text caption;
        has_media = any_media msgs;
      })

  unfoldable pub quota_sendable_count : Rules → Msg Entity → ℕ
  quota_sendable_count rules msg =
      if not (type_allowed rules.allowed_types (lib.content_type msg))
      then 0
      else if not msg.has_media
      then (if is_blank msg.message then 0 else 1)
      else sendable_media (lib.convert msg) msg.message

  unfoldable pub quota_units_for_single : Bool → Msg Entity → ℕ → ℕ
  quota_units_for_single keep_reply msg sendable =
      if eqb sendable 0 then 0 else if keep_reply && lib.is_reply msg then 0 else 1

  unfoldable pub any_reply : List (Msg Entity) → Bool
  any_reply [] = false
  any_reply (msg ∷ rest) = lib.is_reply msg || any_reply rest

  unfoldable pub quota_units_for_batch : Bool → List (Msg Entity) → ℕ → ℕ
  quota_units_for_batch keep_reply batch sendable =
      if eqb sendable 0 then 0 else if keep_reply && any_reply batch then 0 else 1
