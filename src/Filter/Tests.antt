-- ===== src/Filter/Tests.antt =====
-- Runs of the planning of an album of internal/engine/filter.go.
use tgvive.Prelude.{
  ℕ, List, length, none, [], ◌+◌, true, if◌then◌else◌, false, ◌∷◌, ◌≡◌, eqb, ◌⊎◌, ◌%◌,
}
use tgvive.Filter.{Media, Rules, Msg, plan_media_group, count_of, Converted}
use tgvive.Text.{Text, text}
use tgvive.Prelude.Int.{pos, pos_part, ℤ}
use tgvive.Filter.Plan.{plan_media_group-accounts, count_id, ids_of, count_sendable}

abbrev photo : ℕ → Text → Msg (Unit {0})
photo id caption = record {
  id = pos id;
  grouped_id = pos 7;
  has_media = true;
  message = caption;
  entities = [];
}

-- Media of odd IDs can be sent.
abbrev odd_media : Media (Unit {0})
odd_media = record {
  content_type = λ m. text "photo";
  file_name = λ m. [];
  convert = λ m. if eqb (pos_part m.id % 2) 1 then Converted.converted else Converted.unsupported;
  is_reply = λ m. false;
}

abbrev all_rules : Rules
all_rules = record {
  allowed_types = none;
  allow_suffixes = [];
  block_suffixes = [];
  keep_reply = false;
}

abbrev album : List (Msg (Unit {0}))
album = photo 5 [] ∷ photo 4 (text "caption") ∷ photo 3 [] ∷ []

plan_media_group-accounts_example :
    let plan = plan_media_group odd_media all_rules album in
    ((i : ℤ) → count_id i (ids_of plan.media) ≡ count_sendable odd_media all_rules i album)
    × (length plan.media + plan.skipped ≡ 3)
    × (plan.need ≡ length plan.media + count_of plan.text)
    × ((plan.text ≡ none) ⊎ (plan.media ≡ []))
plan_media_group-accounts_example = plan_media_group-accounts odd_media all_rules album
