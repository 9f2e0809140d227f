-- ===== src/Filter/Plan.antt =====
-- The messages of an album in its plan.
use tgvive.Filter.{
  with_caption, fill_plan, Media, Msg, count_of, Rules, MediaGroupPlan, keep_loop, keep_one,
  is_refused_file, is_converted, type_allowed, file_suffix_allowed, plan_media_group,
  quota_units_for_batch, caption_from, older,
}
use tgvive.Prelude.{
  List, Option, length, ◌≡◌, ◌+◌, Bool, some, none, [], ◌∷◌, ℕ, arith, ◌⊎◌, ap, refl, ◌≤◌, inr, inl,
  sort_slice, sort_slice-length, ◌++◌, insert_sorted, ◌&&◌, suc, if◌then◌else◌, ◌∙◌, ◌||◌,
  length-append, not,
}
use tgvive.Prelude.Int.{ℤ, eqb_ℤ}
use tgvive.Text.{text_same, text}

module _ {Entity : Type 0} where
  with_caption-length :
      (caption : Option (Msg Entity)) (kept : List (Msg Entity))
      → length (with_caption caption kept) ≡ length kept
  unfolding with_caption
  with_caption-length none kept = refl
  with_caption-length (some c) [] = refl
  with_caption-length (some c) (first ∷ rest) = ground arith

  -- What a plan is filled with.
  abbrev pub IsFilled : List (Msg Entity) → MediaGroupPlan Entity → Type 0
  IsFilled kept plan =
      (length plan.media ≡ length kept)
      × (plan.need ≡ length plan.media + count_of plan.text)
      × ((plan.text ≡ none) ⊎ (plan.media ≡ []))

  fill_plan-IsFilled :
      (rules : Rules) (caption : Option (Msg Entity)) (kept : List (Msg Entity))
      (plan : MediaGroupPlan Entity)
      → plan.media ≡ []
      → plan.text ≡ none
      → IsFilled kept (fill_plan rules caption kept plan)
  unfolding fill_plan count_of
  fill_plan-IsFilled rules caption [] plan m t = (ap length m, rw m (omega arith), inr m)
  fill_plan-IsFilled rules caption (first ∷ rest) plan m t =
      let same = with_caption-length caption (first ∷ rest) in
      (same, rw t (omega (arith, same)), inl t)

  fill_plan_skipped :
      (rules : Rules) (caption : Option (Msg Entity)) (kept : List (Msg Entity))
      (plan : MediaGroupPlan Entity)
      → (fill_plan rules caption kept plan).skipped ≡ plan.skipped
  unfolding fill_plan
  fill_plan_skipped rules caption [] plan = refl
  fill_plan_skipped rules caption (first ∷ rest) plan = refl

-- How many entries of a list of IDs are a given one.
unfoldable pub count_id : ℤ → List ℤ → ℕ
count_id i [] = 0
count_id i (x ∷ xs) = (if eqb_ℤ x i then 1 else 0) + count_id i xs

count_id-append : (i : ℤ) (xs ys : List ℤ) → count_id i (xs ++ ys) ≡ count_id i xs + count_id i ys
unfolding count_id
count_id-append i [] ys = omega arith
count_id-append i (x ∷ xs) ys = let ih = count_id-append i xs ys in omega (arith, ih)

module _ {Entity : Type 0} where
  unfoldable pub ids_of : List (Msg Entity) → List ℤ
  ids_of [] = []
  ids_of (m ∷ ms) = m.id ∷ ids_of ms

  ids_of-append : (xs ys : List (Msg Entity)) → ids_of (xs ++ ys) ≡ ids_of xs ++ ids_of ys
  unfolding ids_of
  ids_of-append [] ys = refl
  ids_of-append (x ∷ xs) ys = ap (λ l. x.id ∷ l) (ids_of-append xs ys)

  ids_of-with_caption :
      (caption : Option (Msg Entity)) (kept : List (Msg Entity))
      → ids_of (with_caption caption kept) ≡ ids_of kept
  unfolding with_caption ids_of
  ids_of-with_caption none kept = refl
  ids_of-with_caption (some c) [] = refl
  ids_of-with_caption (some c) (first ∷ rest) = ground arith

  ids_of-fill_plan :
      (rules : Rules) (caption : Option (Msg Entity)) (kept : List (Msg Entity))
      (plan : MediaGroupPlan Entity)
      → plan.media ≡ []
      → ids_of (fill_plan rules caption kept plan).media ≡ ids_of kept
  unfolding fill_plan
  ids_of-fill_plan rules caption [] plan m = ap ids_of m
  ids_of-fill_plan rules caption (first ∷ rest) plan m = ids_of-with_caption caption (first ∷ rest)

  count_id-insert_sorted :
      (i : ℤ) (x : Msg Entity) (xs : List (Msg Entity))
      → count_id i (ids_of (insert_sorted older x xs)) ≡ count_id i (ids_of (x ∷ xs))
  unfolding insert_sorted ids_of count_id
  count_id-insert_sorted i x [] = refl
  count_id-insert_sorted i x (y ∷ ys) = let ih = count_id-insert_sorted i x ys in ground (arith, ih)

  count_id-sort_slice :
      (i : ℤ) (xs : List (Msg Entity))
      → count_id i (ids_of (sort_slice older xs)) ≡ count_id i (ids_of xs)
  unfolding sort_slice ids_of count_id
  count_id-sort_slice i [] = refl
  count_id-sort_slice i (x ∷ xs) =
      let ih = count_id-sort_slice i xs in
      count_id-insert_sorted i x (sort_slice older xs) ∙ omega (arith, ih)

module _ {Entity : Type 0} (lib : Media Entity) (rules : Rules) where
  -- A message that is sent as media: it has media, of an allowed type, which can be sent on and is no
  -- file with a suffix that is refused.
  unfoldable pub is_sendable : Msg Entity → Bool
  is_sendable msg =
      is_converted (lib.convert msg)
      && type_allowed rules.allowed_types (lib.content_type msg)
      && (file_suffix_allowed (lib.file_name msg) rules.allow_suffixes rules.block_suffixes
          || not (text_same (lib.content_type msg) (text "file")))
      && msg.has_media

  -- How many messages with an ID are sent.
  unfoldable pub count_sendable : ℤ → List (Msg Entity) → ℕ
  count_sendable i [] = 0
  count_sendable i (m ∷ ms) = (if eqb_ℤ m.id i && is_sendable m then 1 else 0) + count_sendable i ms

  kept_one :
      (i : ℤ) (msg : Msg Entity) (kept : List (Msg Entity)) (skipped : ℕ)
      → count_id i (ids_of (keep_one lib rules msg (kept, skipped)).0)
        ≡ count_id i (ids_of kept) + (if eqb_ℤ msg.id i && is_sendable msg then 1 else 0)
  unfolding keep_one is_refused_file is_sendable ids_of count_id
  kept_one i msg kept skipped =
      let a = ids_of-append kept (msg ∷ []) in
      let b = count_id-append i (ids_of kept) (msg.id ∷ []) in
      let both : count_id i (ids_of (kept ++ msg ∷ []))
          ≡ count_id i (ids_of kept) + ((if eqb_ℤ msg.id i then 1 else 0) + 0) =
        ap (count_id i) a ∙ b in
      ground (arith, both)

  kept_all :
      (i : ℤ) (msgs : List (Msg Entity)) (acc : List (Msg Entity) × ℕ)
      → count_id i (ids_of (keep_loop lib rules msgs acc).0)
        ≡ count_id i (ids_of acc.0) + count_sendable i msgs
  unfolding keep_loop count_sendable
  kept_all i [] acc = omega arith
  kept_all i (m ∷ ms) acc =
      let ih = kept_all i ms (keep_one lib rules m acc) in
      let one = kept_one i m acc.0 acc.1 in omega (arith, ih, one)

  one_more :
      (msg : Msg Entity) (kept : List (Msg Entity)) (skipped : ℕ)
      → length (keep_one lib rules msg (kept, skipped)).0
          + (keep_one lib rules msg (kept, skipped)).1
        ≡ suc (length kept + skipped)
  unfolding keep_one
  one_more msg kept skipped = let l = length-append kept (msg ∷ []) in ground (arith, l)

  kept_skipped :
      (msgs : List (Msg Entity)) (acc : List (Msg Entity) × ℕ)
      → length (keep_loop lib rules msgs acc).0 + (keep_loop lib rules msgs acc).1
        ≡ length acc.0 + acc.1 + length msgs
  unfolding keep_loop
  kept_skipped [] acc = omega arith
  kept_skipped (m ∷ ms) acc =
      let ih = kept_skipped ms (keep_one lib rules m acc) in
      let one = one_more m acc.0 acc.1 in omega (arith, ih, one)

  no_ids : (i : ℤ) (n : ℕ) → count_id i (ids_of {Entity = Entity} []) + n ≡ n
  unfolding count_id ids_of
  no_ids i n = omega arith

  -- The media that the plan of an album sends are those of its messages that have media, of an allowed
  -- type, which can be sent on and is no file with a refused suffix: of each ID as many. The others are
  -- counted as skipped. The plan needs as much of the quota as it sends messages, and where it sends a
  -- text it sends no media.
  pub plan_media_group-accounts :
      (msgs : List (Msg Entity))
      → let plan = plan_media_group lib rules msgs in
        ((i : ℤ) → count_id i (ids_of plan.media) ≡ count_sendable i msgs)
        × (length plan.media + plan.skipped ≡ length msgs)
        × (plan.need ≡ length plan.media + count_of plan.text)
        × ((plan.text ≡ none) ⊎ (plan.media ≡ []))
  unfolding plan_media_group
  plan_media_group-accounts msgs =
      let caption = caption_from msgs none in
      let kept = (keep_loop lib rules msgs ([], 0)).0 in
      let sorted = sort_slice older kept in
      let (media, need, either) = fill_plan-IsFilled rules caption sorted _ refl refl in
      (
        λ i.
            ap (count_id i) (ids_of-fill_plan rules caption sorted _ refl)
            ∙ count_id-sort_slice i kept
            ∙ kept_all i msgs ([], 0)
            ∙ no_ids i (count_sendable i msgs),
        omega (
          arith,
          media,
          sort_slice-length older kept,
          fill_plan_skipped rules caption sorted _,
          kept_skipped msgs ([], 0),
        ),
        need,
        either,
      )

  -- A batch costs no more units than it sends messages.
  pub quota_units_for_batch-le :
      (keep_reply : Bool) (batch : List (Msg Entity)) (sendable : ℕ)
      → quota_units_for_batch lib keep_reply batch sendable ≤ sendable
  unfolding quota_units_for_batch
  quota_units_for_batch-le keep_reply batch sendable = ground arith
