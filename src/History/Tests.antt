-- ===== src/History/Tests.antt =====
-- Runs of the copies of internal/engine/history.go.
use tgvive.Prelude.Int64.{◌+i◌, ◌-i◌, wrap64}
use tgvive.History.Turns.{
  after_send, apply_keywords, at_least_one, commit, handle_album, handle_group, handle_single,
  send_group, send_plan, send_single, wait_for, handle_page, page_round,
}
use tgvive.Prelude.{
  ℕ, List, none, [], false, true, ◌∷◌, suc, arith, zero, ◌≡◌, refl, sort_slice, map, insert_sorted,
}
use tgvive.Filter.{
  Rules, Msg, Converted, older, any_media, any_reply, any_suffix, better_caption, caption_from,
  caption_text, content_allowed, count_of, file_suffix_allowed, fill_plan, has_suffix, has_type,
  is_blank, is_converted, is_refused_file, keep_one, keep_loop, match_any_file_suffix, no_rules,
  plan_media_group, quota_sendable_count, quota_units_for_batch, quota_units_for_single,
  sendable_media, text_only, type_allowed, with_caption,
}
use tgvive.History.Data.{
  Env, Request, delivered, carrier_of, in_group, note, note_if, put_group, split_group,
  with_carrier, or_stop,
}
use tgvive.History.{Bounds, no_bounds}
use tgvive.History.Total.{Returns, RunsPage, run_page-RunsPage}
use tgvive.Text.{Text, text, is_space, trim_left, trim_right, trim_space}
use tgvive.Prelude.Results.{Result, ok}
use tgvive.Prelude.Int.{pos, ℤ, ◌+ℤ◌, ◌-ℤ◌}
use tgvive.History.Copies.{IsCopyFrom, clone_history_old_to_new-Returns}
use tgvive.History.Steps.{IsAnswer}
use tgvive.History.Modes.{
  old_to_new, start_old_to_new, start_new_to_old, new_to_old, since_of, fresh_copy, bounded_max,
  max_in_group, old_to_new_request, passed, out_of_bounds, limit_of,
}
use tgvive.History.Loops.{
  clone_history_old_to_new, Finished, catch_up_new_messages, finished, clone_history_new_to_old,
  out_of_fuel, run_page, begin_page, run_turns, turn_old_to_new, stop_of, is_full, finish_page,
}
use tgvive.History.CatchUp.{IsCaughtUp, catch_up_new_messages-Returns}
use tgvive.History.Page.{eligible}
use tgvive.History.Descent.{clone_history_new_to_old-Returns}
use tgvive.History.Laws.{old_to_new-IsMode}

abbrev message : ℕ → Text → Msg (Unit {0})
message id caption = record {
  id = pos id;
  grouped_id = pos 0;
  has_media = false;
  message = caption;
  entities = [];
}

-- An album of two photos.
abbrev photo : ℕ → Msg (Unit {0})
photo id = record (message id []) { grouped_id = pos 7; has_media = true }

abbrev history : List (Msg (Unit {0}))
history = photo 4 ∷ message 2 (text "two") ∷ photo 3 ∷ message 9 (text "nine") ∷ []

abbrev all_rules : Rules
all_rules = record {
  allowed_types = none;
  allow_suffixes = [];
  block_suffixes = [];
  keep_reply = false;
}

-- The messages come as the answer to the first request; no other part fails.
abbrev reply : ℕ → Result ℕ (List (Msg (Unit {0})))
reply zero = ok history
reply (suc turn) = ok []

abbrev parts : Env ℕ (Unit {0})
parts = record {
  media = record {
    content_type = λ m. [];
    file_name = λ m. [];
    convert = λ m. Converted.converted;
    is_reply = λ m. false;
  };
  ctx_err = λ turn. none;
  rules = λ turn. all_rules;
  has_keywords = false;
  keyword = λ m. (m, false);
  wait_quota = λ turn need. none;
  quota_add = λ turn need. none;
  send = λ turn m. delivered;
  send_album = λ turn ms. delivered;
  persist = λ turn p. none;
  fetch = λ turn q. reply turn;
}

reply-IsAnswer : (turn : ℕ) (q : Request) → IsAnswer 9 (parts.fetch turn q)
reply-IsAnswer zero q = ground arith
reply-IsAnswer (suc turn) q = (tt, tt, tt)

abbrev up_to_eight : Bounds
up_to_eight = record { min_id = pos 2; max_id = pos 8; max_messages = pos 0 }

clone_history_old_to_new-Returns_example :
    Returns
      (λ e st. IsCopyFrom (old_to_new up_to_eight) (start_old_to_new up_to_eight (pos 0)) st)
      (clone_history_old_to_new parts up_to_eight (pos 50) (pos 0) 11)
clone_history_old_to_new-Returns_example =
    clone_history_old_to_new-Returns parts 9 reply-IsAnswer up_to_eight (pos 50) (pos 0) 11
      (omega arith)

clone_history_new_to_old-Returns_example :
    Returns
      (λ e st. IsCopyFrom (new_to_old no_bounds) (start_new_to_old no_bounds (pos 5) (pos 9)) st)
      (clone_history_new_to_old parts no_bounds (pos 50) (pos 5) (pos 9) 6)
unfolding start_new_to_old
clone_history_new_to_old-Returns_example =
    clone_history_new_to_old-Returns parts 9 reply-IsAnswer no_bounds (pos 50) (pos 5) (pos 9) 6
      (omega arith)

catch_up_new_messages-Returns_example :
    Returns
      (λ e st. IsCaughtUp (since_of (pos 2) (pos 9)) (pos 9) st)
      (catch_up_new_messages parts (ok (pos 9)) (pos 2) (pos 50) 11)
catch_up_new_messages-Returns_example =
    catch_up_new_messages-Returns parts 9 (pos 9) (pos 2) (pos 50) 11 reply-IsAnswer (omega arith)

run_page-RunsPage_example :
    RunsPage parts
      (old_to_new up_to_eight)
      false
      (fresh_copy (pos 1) false (pos 0))
      (eligible (old_to_new up_to_eight) false (pos 1) (sort_slice older history))
      (run_page parts
        (old_to_new up_to_eight)
        false
        (fresh_copy (pos 1) false (pos 0))
        (ok history))
run_page-RunsPage_example =
    run_page-RunsPage parts (old_to_new up_to_eight) false (old_to_new-IsMode up_to_eight) (photo 4)
      (message 2 (text "two") ∷ photo 3 ∷ message 9 (text "nine") ∷ [])
      (fresh_copy (pos 1) false (pos 0)) (ground arith)

-- The album of the messages 3 and 4 is taken after message 2, and message 9 is out of bounds.
abbrev taken_of : Finished ℕ (Unit {0}) → List ℤ
taken_of (finished e st) = map (λ m. m.id) st.taken
taken_of (out_of_fuel st) = []

takes_in_order :
    taken_of (clone_history_old_to_new parts up_to_eight (pos 50) (pos 0) 11)
    ≡ pos 2 ∷ pos 3 ∷ pos 4 ∷ []
unfolding clone_history_old_to_new start_old_to_new run_turns turn_old_to_new stop_of is_full ◌-i◌
    wrap64 ◌-ℤ◌ limit_of run_page finish_page handle_page sort_slice insert_sorted older page_round
    or_stop out_of_bounds any_media any_reply any_suffix better_caption caption_from caption_text
    content_allowed count_of file_suffix_allowed fill_plan has_suffix has_type is_blank is_converted
    is_refused_file keep_one keep_loop match_any_file_suffix no_rules plan_media_group
    quota_sendable_count quota_units_for_batch quota_units_for_single sendable_media text_only
    type_allowed with_caption carrier_of in_group note note_if put_group split_group with_carrier
    begin_page bounded_max max_in_group old_to_new_request passed after_send apply_keywords
    at_least_one commit handle_album handle_group handle_single send_group send_plan send_single
    wait_for ◌+ℤ◌ ◌+i◌ is_space trim_left trim_right trim_space
takes_in_order = refl
