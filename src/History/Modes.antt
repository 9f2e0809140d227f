-- ===== src/History/Modes.antt =====
-- The modes of the three copies: what they pass over, where they begin, and what they ask for.
-- The page size of CloneHistoryWithPeers: 50, or the number of messages asked for if that is less.
use tgvive.History.{Bounds}
use tgvive.Prelude.{Bool, List, if◌then◌else◌, ℕ, ◌∷◌, ◌&&◌, ◌||◌, false, [], not, true}
use tgvive.Prelude.Int.{ℤ, ltb_ℤ, pos, leb_ℤ, eqb_ℤ}
use tgvive.Filter.{Msg, older}
use tgvive.History.Data.{Mode, Copy, Request, cursor_and_max, cursor_only, max_only}
use tgvive.Prelude.Int64.{◌-i◌, ◌+i◌}

unfoldable pub page_size_of : Bounds → ℤ
page_size_of b =
    let size =
      if ltb_ℤ (pos 0) b.max_messages && ltb_ℤ b.max_messages (pos 50)
      then b.max_messages
      else pos 50 in
    if leb_ℤ size (pos 0) then pos 1 else size

-- `limit := pageSize`, less where fewer messages remain.
unfoldable pub limit_of : Bounds → ℤ → ℕ → ℤ
limit_of b page_size processed =
    let remain = b.max_messages -i pos processed in
    if ltb_ℤ (pos 0) b.max_messages && ltb_ℤ remain page_size then remain else page_size

-- An ID outside the bounds.
unfoldable pub out_of_bounds : Bounds → ℤ → Bool
out_of_bounds b id =
    (ltb_ℤ (pos 0) b.min_id && ltb_ℤ id b.min_id) || (ltb_ℤ (pos 0) b.max_id && ltb_ℤ b.max_id id)

-- An ID that a copy towards newer messages has passed.
unfoldable pub passed : Bool → ℤ → ℤ → Bool
passed allow_equal cursor id = ltb_ℤ id cursor || (not allow_equal && eqb_ℤ id cursor)

module _ {Entity : Type 0} where
  unfoldable pub max_in_group : List (Msg Entity) → ℤ
  max_in_group [] = pos 0
  max_in_group (msg ∷ rest) =
      let best = max_in_group rest in if ltb_ℤ best msg.id then msg.id else best

  -- The least ID, from that of the first message on.
  unfoldable pub min_from : ℤ → List (Msg Entity) → ℤ
  min_from best [] = best
  min_from best (msg ∷ rest) = min_from (if ltb_ℤ msg.id best then msg.id else best) rest

  unfoldable pub min_in_group : List (Msg Entity) → ℤ
  min_in_group [] = pos 0
  min_in_group (msg ∷ rest) = min_from msg.id rest

  unfoldable pub newer : Msg Entity → Msg Entity → Bool
  newer a b = ltb_ℤ b.id a.id

  abbrev pub old_to_new : Bounds → Mode Entity
  old_to_new b = record {
    skips = λ allow_equal cursor id. out_of_bounds b id || passed allow_equal cursor id;
    edge = max_in_group;
    persist_of = cursor_and_max;
    less = older;
  }

  abbrev pub new_to_old : Bounds → Mode Entity
  new_to_old b = record {
    skips =
        λ allow_equal cursor id. (ltb_ℤ (pos 0) cursor && leb_ℤ cursor id) || out_of_bounds b id;
    edge = min_in_group;
    persist_of = cursor_only;
    less = newer;
  }

  abbrev pub catch_up : ℤ → ℤ → Mode Entity
  catch_up since latest = record {
    skips =
        λ allow_equal cursor id. ltb_ℤ latest id || passed allow_equal cursor id || leb_ℤ id since;
    edge = max_in_group;
    persist_of = max_only;
    less = older;
  }

  abbrev pub fresh_copy : ℤ → Bool → ℤ → Copy Entity
  fresh_copy cursor include_once max_seen = record {
    cursor = cursor;
    include_once = include_once;
    processed = 0;
    advanced = false;
    max_seen = max_seen;
    turn = 0;
    taken = [];
    effects = [];
  }

  unfoldable pub start_old_to_new : Bounds → ℤ → Copy Entity
  start_old_to_new b cursor =
      let raised =
        if ltb_ℤ (pos 0) b.min_id && ltb_ℤ cursor (b.min_id -i pos 1)
        then b.min_id -i pos 1
        else cursor in
      if leb_ℤ raised (pos 0)
      then fresh_copy (pos 1) true (pos 0)
      else fresh_copy raised false (pos 0)

  unfoldable pub start_new_to_old : Bounds → ℤ → ℤ → Copy Entity
  start_new_to_old b cursor max_seen =
      let start =
        if ltb_ℤ (pos 0) cursor
        then cursor
        else if ltb_ℤ (pos 0) b.max_id
        then b.max_id +i pos 1
        else pos 0 in
      fresh_copy start false max_seen

  unfoldable pub start_catch_up : ℤ → Copy Entity
  start_catch_up since =
      if leb_ℤ since (pos 0)
      then fresh_copy (pos 1) true (pos 0)
      else fresh_copy since false (pos 0)

  -- The greatest ID of a page, and 0 if none is positive.
  unfoldable pub page_max : List (Msg Entity) → ℤ
  page_max msgs = max_in_group msgs

unfoldable pub bounded_max : Bounds → ℤ
bounded_max b = if ltb_ℤ (pos 0) b.max_id then b.max_id +i pos 1 else pos 0

unfoldable pub old_to_new_request : Bounds → ℤ → Bool → ℤ → Request
old_to_new_request b limit include cursor = record {
  offset_id = cursor;
  add_offset = if include then pos 0 -i limit +i pos 1 else pos 0 -i limit;
  limit = limit;
  min_id = if include then pos 0 else cursor;
  max_id = bounded_max b;
}

unfoldable pub new_to_old_request : Bounds → ℤ → ℤ → Request
new_to_old_request b limit cursor = record {
  offset_id = cursor;
  add_offset = pos 0;
  limit = limit;
  min_id = if ltb_ℤ (pos 0) b.min_id then b.min_id -i pos 1 else pos 0;
  max_id = bounded_max b;
}

unfoldable pub catch_up_request : ℤ → ℤ → Bool → ℤ → Request
catch_up_request latest limit include cursor = record {
  offset_id = cursor;
  add_offset = if include then pos 0 -i limit +i pos 1 else pos 0 -i limit;
  limit = limit;
  min_id = cursor;
  max_id = latest +i pos 1;
}

unfoldable pub catch_up_limit : ℤ → ℤ
catch_up_limit page_size =
    let limit = if leb_ℤ page_size (pos 0) then pos 50 else page_size in
    if ltb_ℤ (pos 50) limit then pos 50 else limit

-- The first ID to catch up after: the greatest one that was copied, or else the last 500.
unfoldable pub since_of : ℤ → ℤ → ℤ
since_of baseline latest =
    let back = latest -i pos 500 in
    if ltb_ℤ (pos 0) baseline then baseline else if ltb_ℤ back (pos 0) then pos 0 else back
