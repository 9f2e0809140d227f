-- ===== src/History/Page.antt =====
-- A page is taken message by message, in its order.
-- What a mode must satisfy: a message that is not passed over moves the cursor to where the messages
-- after it are passed over as before, and a group leaves the cursor at its last message.
use tgvive.History.Data.{
  Mode, Env, Copy, Step, done, next, or_stop, split_group, put_group, in_group,
}
use tgvive.Prelude.{
  Bool, ◌≡◌, List, false, All, true, not, ◌∷◌, arith, ◌++◌, length, [], refl, ◌<◌, ap, ◌∙◌, sym,
  if◌then◌else◌, suc, Option, append_nil, some, ◌||◌, none, ◌&&◌, ◌≢◌, inr, inl,
}
use tgvive.Prelude.Int.{ℤ, leb_ℤ, pos, eqb_ℤ_iff, eqb_ℤ}
use tgvive.Filter.{Msg}
use tgvive.History.Commits.{Commits, handle_single-Commits, handle_album-Commits, IsError}
use tgvive.History.Turns.{page_round, handle_group, handle_single, handle_album}
use tgvive.History.Groups.{
  pick, IsStrict, last_of, IsPositive, split_group-IsStrict, split_group-All, split_group-pick,
  split_group-kept, split_group-length, TakesGroup, last_of-All,
}

pub record IsMode {Entity : Type 0} (mode : Mode Entity) : Type 0 where
  pub keeps :
      (allow_equal : Bool) (cursor : ℤ) (m x : Msg Entity)
      → mode.skips allow_equal cursor m.id ≡ false
      → mode.less m x ≡ true
      → mode.skips allow_equal m.id x.id ≡ mode.skips allow_equal cursor x.id
  pub edge_last :
      (m : Msg Entity) (ms : List (Msg Entity))
      → IsStrict mode.less (m ∷ ms)
      → All IsPositive (m ∷ ms)
      → mode.edge (m ∷ ms) ≡ (last_of m ms).id
  pub less_trans :
      (x y z : Msg Entity) → mode.less x y ≡ true → mode.less y z ≡ true → mode.less x z ≡ true
  pub less_total : (x y : Msg Entity) → x.id ≢ y.id → mode.less y x ≡ false → mode.less x y ≡ true
  pub later :
      (m x : Msg Entity) → IsPositive m → mode.skips false m.id x.id ≡ false → mode.less m x ≡ true
  pub onward :
      (allow_equal : Bool) (cursor : ℤ) (m x : Msg Entity)
      → IsPositive m
      → mode.skips allow_equal cursor m.id ≡ false
      → mode.skips false m.id x.id ≡ false
      → mode.skips allow_equal cursor x.id ≡ false

-- The messages of a page that a copy at a cursor does not pass over.
abbrev pub eligible :
    {Entity : Type 0} → Mode Entity → Bool → ℤ → List (Msg Entity) → List (Msg Entity)
eligible mode allow_equal cursor ms = pick (λ m. not (mode.skips allow_equal cursor m.id)) ms

module _ {Err Entity : Type 0} (env : Env Err Entity) (mode : Mode Entity)
    (allow_equal : Bool) where
  -- From a later place of the page, as much is eligible mode allow_equal as before.
  eligible-keeps :
      (laws : IsMode mode) (cursor : ℤ) (m : Msg Entity) (ms : List (Msg Entity))
      → mode.skips allow_equal cursor m.id ≡ false
      → All (λ x. mode.less m x ≡ true) ms
      → eligible mode allow_equal m.id ms ≡ eligible mode allow_equal cursor ms
  eligible-keeps laws cursor m [] h a = refl
  eligible-keeps laws cursor m (x ∷ xs) h a =
      ground (arith, eligible-keeps laws cursor m xs h a.1, laws.keeps allow_equal cursor m x h a.0)

  -- What a round makes of the messages that are left.
  unfoldable pub Rounds : Copy Entity → List (Msg Entity) → Step Err Entity → Type 0
  Rounds st ms (done e st') = (st'.taken ≡ st.taken) × (st'.processed ≡ st.processed) × IsError e
  Rounds st ms (next rest st') =
      (group : List (Msg Entity)) × TakesGroup st group st'
      × (eligible mode allow_equal st.cursor ms
          ≡ group ++ eligible mode allow_equal st'.cursor rest)
      × IsStrict mode.less rest
      × All IsPositive rest
      × (length rest < length ms)

  group-Rounds :
      (laws : IsMode mode) (st : Copy Entity) (ms rest : List (Msg Entity)) (m : Msg Entity)
      (group : List (Msg Entity)) (r : Step Err Entity)
      → eligible mode allow_equal st.cursor ms
        ≡ (m ∷ group) ++ eligible mode allow_equal st.cursor rest
      → IsStrict mode.less (m ∷ group)
      → All IsPositive (m ∷ group)
      → All (λ g. mode.skips allow_equal st.cursor g.id ≡ false) (m ∷ group)
      → All (λ g. All (λ x. mode.less g x ≡ true) rest) (m ∷ group)
      → IsStrict mode.less rest
      → All IsPositive rest
      → length rest < length ms
      → Commits env mode (m ∷ group) rest st r
      → Rounds st ms r
  unfolding Commits Rounds
  group-Rounds laws st ms rest m group (done e st') el strict positive kept after srest prest short
        c =
      c
  group-Rounds laws st ms rest m group (next rest' st') el strict positive kept after srest prest
        short c =
      let (same, taken, processed, cursor, include, advanced) = c in
      let last = last_of m group in
      let at_last : st'.cursor ≡ last.id = cursor ∙ laws.edge_last m group strict positive in
      let moved : eligible mode allow_equal st'.cursor rest
          ≡ eligible mode allow_equal st.cursor rest =
        ap (λ k. eligible mode allow_equal k rest) at_last
        ∙ eligible-keeps laws st.cursor last rest
            (last_of-All (λ g. mode.skips allow_equal st.cursor g.id ≡ false) m group kept)
            (last_of-All (λ g. All (λ x. mode.less g x ≡ true) rest) m group after) in
      rw same (
        m ∷ group,
        (taken, processed, at_last, include, λ e. cc, inr advanced),
        el ∙ ap (λ ys. (m ∷ group) ++ ys) (sym moved),
        srest,
        prest,
        short,
      )

  or_stop-Rounds :
      (o : Option Err) (st : Copy Entity) (ms : List (Msg Entity)) (later : Step Err Entity)
      → Rounds st ms later
      → Rounds st ms (or_stop o st later)
  unfolding or_stop Rounds
  or_stop-Rounds none st ms later h = h
  or_stop-Rounds (some e) st ms later h = (refl, refl, tt)

  if-Rounds :
      (b : Bool) (st : Copy Entity) (ms : List (Msg Entity)) (x y : Step Err Entity)
      → (b ≡ true → Rounds st ms x)
      → (b ≡ false → Rounds st ms y)
      → Rounds st ms (if b then x else y)
  if-Rounds true st ms x y h k = h refl
  if-Rounds false st ms x y h k = k refl

  pass-Rounds :
      (m : Msg Entity) (ms : List (Msg Entity)) (st : Copy Entity)
      → IsStrict mode.less (m ∷ ms)
      → All IsPositive (m ∷ ms)
      → mode.skips allow_equal st.cursor m.id ≡ true
      → Rounds st (m ∷ ms) (next ms (record st { turn = suc st.turn }))
  unfolding Rounds
  pass-Rounds m ms st strict positive skip = (
    [],
    (sym (append_nil st.taken), omega arith, refl, refl, λ e. refl, inl refl),
    ground (arith, skip),
    strict.1,
    positive.1,
    omega arith,
  )

  -- The first message of an album is in its group.
  split-first :
      (m : Msg Entity) (ms : List (Msg Entity)) (skipped : ℤ → Bool)
      → m.has_media ≡ true
      → skipped m.id ≡ false
      → split_group skipped m.grouped_id (m ∷ ms)
        ≡ (m ∷ (split_group skipped m.grouped_id ms).0, (split_group skipped m.grouped_id ms).1)
  unfolding split_group put_group in_group
  split-first m ms skipped h k = ground (arith, h, k, eqb_ℤ_iff m.grouped_id m.grouped_id)

  album-Rounds :
      (laws : IsMode mode) (m : Msg Entity) (ms : List (Msg Entity)) (st : Copy Entity)
      → IsStrict mode.less (m ∷ ms)
      → All IsPositive (m ∷ ms)
      → m.has_media ≡ true
      → mode.skips allow_equal st.cursor m.id ≡ false
      → Rounds st (m ∷ ms) (
          handle_group env mode
            (split_group (mode.skips allow_equal st.cursor) m.grouped_id (m ∷ ms))
            st)
  unfolding handle_group
  album-Rounds laws m ms st strict positive media keep =
      let skipped = mode.skips allow_equal st.cursor in
      let g = (split_group skipped m.grouped_id ms).0 in
      let r = (split_group skipped m.grouped_id ms).1 in
      let first = split-first m ms skipped media keep in
      let (ag, ar, order) = split_group-IsStrict skipped m.grouped_id mode.less ms strict.1 in
      let (mg, mr) = split_group-All skipped m.grouped_id (λ x. mode.less m x ≡ true) ms strict.0 in
      let (pg, pr) = split_group-All skipped m.grouped_id IsPositive ms positive.1 in
      let el = split_group-pick skipped m.grouped_id ms in
      rw first (
        group-Rounds laws st (m ∷ ms) r m g (handle_album env mode (m ∷ g) r st)
          (ground (arith, keep, el)) (mg, ag) (positive.0, pg)
          (keep, split_group-kept skipped m.grouped_id ms) (mr, order) ar pr
          (omega (arith, split_group-length skipped m.grouped_id ms))
          (handle_album-Commits env mode (m ∷ g) r st))

  single-Rounds :
      (laws : IsMode mode) (m : Msg Entity) (ms : List (Msg Entity)) (st : Copy Entity)
      → IsStrict mode.less (m ∷ ms)
      → All IsPositive (m ∷ ms)
      → mode.skips allow_equal st.cursor m.id ≡ false
      → Rounds st (m ∷ ms) (handle_single env mode m ms st)
  single-Rounds laws m ms st strict positive keep =
      group-Rounds laws st (m ∷ ms) ms m [] (handle_single env mode m ms st) (ground (arith, keep))
        (tt, tt) (positive.0, tt) (keep, tt) (strict.0, tt) strict.1 positive.1 (omega arith)
        (handle_single-Commits env mode m ms st)

  pub page_round-Rounds :
      (laws : IsMode mode) (m : Msg Entity) (ms : List (Msg Entity)) (st : Copy Entity)
      → IsStrict mode.less (m ∷ ms)
      → All IsPositive (m ∷ ms)
      → Rounds st (m ∷ ms) (page_round env mode allow_equal m ms st)
  unfolding page_round
  page_round-Rounds laws m ms st strict positive =
      or_stop-Rounds (env.ctx_err st.turn) st (m ∷ ms) _ (
        if-Rounds (leb_ℤ m.id (pos 0) || mode.skips allow_equal st.cursor m.id) st (m ∷ ms) _ _
          (λ e. pass-Rounds m ms st strict positive (ground (arith, e, positive.0)))
          (λ e.
            if-Rounds (not (eqb_ℤ m.grouped_id (pos 0)) && m.has_media) st (m ∷ ms) _ _
              (λ f.
                album-Rounds laws m ms st strict positive (ground (arith, f)) (ground (arith, e)))
              (λ f. single-Rounds laws m ms st strict positive (ground (arith, e)))))
