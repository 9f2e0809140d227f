-- ===== src/Realtime/Spending.antt =====
-- What the pages of a poll spend, and which messages they dispatch.
use tgvive.Prelude.{
  ℕ, List, All, ◌++◌, Bool, ◌∷◌, if◌then◌else◌, [], ◌≤◌, ◌+◌, suc, ◌&&◌, ◌≡◌, arith, true, not,
  Bool-cases, zero, false, inl, inr, ltb, ◌||◌, sort_slice,
}
use tgvive.Realtime.Poll.{
  PollEnv, Poll, unit_cost, poll_dispatch, poll_message, poll_page, poll_pages, raise_page_max,
  poll_catch_up, begin_poll_page, is_reply_free, catch_up_units, poll_request, albums_with,
  poll_answer,
}
use tgvive.Prelude.Int.{ℤ, ◌<ℤ◌, pos, ◌≤ℤ◌, eqb_ℤ, ltb_ℤ, leb_ℤ}
use tgvive.Filter.{Msg, older}
use tgvive.Realtime.Dispatch.{in_album, dispatch, World}
use tgvive.Realtime.{latest_processed_id}
use tgvive.Prelude.Results.{Result, err, ok}

module _ {Err Entity : Type 0} (env : PollEnv Err Entity) where
  -- A message of no album that answers none.
  unfoldable pub is_plain : Msg Entity → Bool
  is_plain msg = eqb_ℤ msg.grouped_id (pos 0) && not (env.media.is_reply msg)

  unfoldable pub count_plain : List (Msg Entity) → ℕ
  count_plain [] = 0
  count_plain (msg ∷ rest) = (if is_plain msg then 1 else 0) + count_plain rest

  count_plain-append :
      (xs : List (Msg Entity)) (msg : Msg Entity)
      → count_plain (xs ++ msg ∷ []) ≡ count_plain xs + (if is_plain msg then 1 else 0)
  unfolding count_plain
  count_plain-append [] msg = omega arith
  count_plain-append (x ∷ xs) msg = omega (arith, count_plain-append xs msg)

-- An ID behind the last one that was copied, up to the last one that there is.
abbrev pub IsAhead : {Entity : Type 0} → ℤ → ℤ → Msg Entity → Type 0
IsAhead last_id remote msg = (last_id <ℤ msg.id) × (msg.id ≤ℤ remote)

All-snoc {ℓ} :
    {A : Type ℓ} (P : A → Type 0) (xs : List A) (a : A) → All P xs → P a → All P (xs ++ a ∷ [])
All-snoc P [] a h p = (p, tt)
All-snoc P (x ∷ xs) a h p = (h.0, All-snoc P xs a h.1 p)

module _ {Err Entity : Type 0} (env : PollEnv Err Entity) (remaining last_id remote : ℤ) where
  pub record IsBudgeted (st : Poll Entity) : Type 0 where
    pub units_le : pos 0 ≤ℤ remaining → st.units ≤ catch_up_units remaining
    pub plain_le : count_plain env st.found ≤ st.units
    pub ahead : All (IsAhead last_id remote) st.found
    pub page_le : last_id ≤ℤ st.page_max

  -- A plain message costs a unit.
  plain_cost :
      (msg : Msg Entity) (st : Poll Entity)
      → (if is_plain env msg then 1 else 0) ≤ unit_cost env msg st
  unfolding is_plain unit_cost in_album is_reply_free
  plain_cost msg st = ground arith

  dispatch-IsBudgeted :
      (after_id : ℤ) (msg : Msg Entity) (st : Poll Entity)
      → IsBudgeted st
      → last_id ≤ℤ after_id
      → after_id <ℤ msg.id
      → msg.id ≤ℤ remote
      → (pos 0 ≤ℤ remaining → st.units + unit_cost env msg st ≤ catch_up_units remaining)
      → IsBudgeted (poll_dispatch env msg st)
  unfolding poll_dispatch raise_page_max
  dispatch-IsBudgeted after_id msg st v a b c d =
      elim (Bool-cases (dispatch (env.call st.turn) msg st.world).1) [
        | inl e ↦ rw e record {
          units_le = d;
          plain_le =
              omega (arith, count_plain-append env st.found msg, plain_cost msg st, v.plain_le);
          ahead = All-snoc (IsAhead last_id remote) st.found msg v.ahead (omega arith, c);
          page_le = ground (arith, v.page_le);
        }
        | inr e ↦ rw e record {
          units_le = v.units_le;
          plain_le = v.plain_le;
          ahead = v.ahead;
          page_le = v.page_le;
        }
      ]

  -- Changes of a poll that concern none of this.
  still :
      (st : Poll Entity) (w : World Entity) (albums : List ℤ) (t : ℕ)
      → IsBudgeted st
      → IsBudgeted (record st { world = w; seen_albums = albums; turn = t })
  still st w albums t v = record {
    units_le = v.units_le;
    plain_le = v.plain_le;
    ahead = v.ahead;
    page_le = v.page_le;
  }

  raised :
      (msg : Msg Entity) (st : Poll Entity)
      → IsBudgeted st
      → IsBudgeted (record st { page_max = raise_page_max msg.id st.page_max; turn = suc st.turn })
  unfolding raise_page_max
  raised msg st v = record {
    units_le = v.units_le;
    plain_le = v.plain_le;
    ahead = v.ahead;
    page_le = ground (arith, v.page_le);
  }

  message-IsBudgeted :
      (after_id : ℤ) (msg : Msg Entity) (st : Poll Entity)
      → last_id ≤ℤ after_id
      → IsBudgeted st
      → IsBudgeted (poll_message env remaining after_id remote msg st).0
  unfolding poll_message poll_catch_up raise_page_max
  message-IsBudgeted after_id msg before a v =
      let st = poll_catch_up env before in
      let u = still before st.world before.seen_albums before.turn v in
      let cur = latest_processed_id st.world.rt in
      elim (Bool-cases (leb_ℤ msg.id (pos 0) || leb_ℤ msg.id after_id || ltb_ℤ remote msg.id)) [
        | inl e ↦ rw e (still st st.world st.seen_albums (suc st.turn) u)
        | inr e ↦ elim (Bool-cases (ltb_ℤ (pos 0) cur && leb_ℤ msg.id cur)) [
          | inl f ↦ rw (e, f) (raised msg st u)
          | inr f ↦
              elim (Bool-cases (
                leb_ℤ (pos 0) remaining
                && ltb (catch_up_units remaining) (st.units + unit_cost env msg st))) [
                  | inl g ↦ rw (e, f, g) (still st st.world (albums_with env msg st) st.turn u)
                  | inr g ↦
                      rw (e, f, g)
                        (dispatch-IsBudgeted after_id msg st u a (ground (arith, e))
                          (ground (arith, e)) (λ r. ground (arith, g, r)))
                ]
        ]
      ]

  page-IsBudgeted :
      (after_id : ℤ) (msgs : List (Msg Entity)) (st : Poll Entity)
      → last_id ≤ℤ after_id
      → IsBudgeted st
      → IsBudgeted (poll_page env remaining after_id remote msgs st)
  unfolding poll_page
  page-IsBudgeted after_id [] st a v = v
  page-IsBudgeted after_id (msg ∷ rest) st a v =
      let st' = (poll_message env remaining after_id remote msg st).0 in
      let v' = message-IsBudgeted after_id msg st a v in
      elim (poll_message env remaining after_id remote msg st).1
        as (λ b. IsBudgeted (if b then poll_page env remaining after_id remote rest st' else st')) [
          | true ↦ page-IsBudgeted after_id rest st' a v'
          | false ↦ v'
        ]

  begun :
      (after_id : ℤ) (st : Poll Entity)
      → last_id ≤ℤ after_id
      → IsBudgeted st
      → IsBudgeted (begin_poll_page env after_id st)
  unfolding begin_poll_page
  begun after_id st a v = record {
    units_le = v.units_le;
    plain_le = v.plain_le;
    ahead = v.ahead;
    page_le = a;
  }

  answer-IsBudgeted :
      (later : ℤ → Poll Entity → Poll Entity) (after_id : ℤ) (st : Poll Entity)
      (answer : Result Err (List (Msg Entity)))
      → ((id : ℤ) (st' : Poll Entity) → last_id ≤ℤ id → IsBudgeted st' → IsBudgeted (later id st'))
      → last_id ≤ℤ after_id
      → IsBudgeted st
      → IsBudgeted (poll_answer env later remaining after_id remote st answer)
  unfolding poll_answer
  answer-IsBudgeted later after_id st (err e) h a v = v
  answer-IsBudgeted later after_id st (ok []) h a v = v
  answer-IsBudgeted later after_id st (ok (msg ∷ rest)) h a v =
      let st' =
        poll_page env remaining after_id remote (sort_slice older (msg ∷ rest))
          (begin_poll_page env after_id st) in
      let v' =
        page-IsBudgeted after_id (sort_slice older (msg ∷ rest)) (begin_poll_page env after_id st) a
          (begun after_id st a v) in
      elim (not st'.advanced || leb_ℤ st'.page_max after_id)
        as (λ b. IsBudgeted (if b then st' else later st'.page_max st')) [
          | true ↦ v'
          | false ↦ h st'.page_max st' v'.page_le v'
        ]

  pub pages-IsBudgeted :
      (n : ℕ) (after_id : ℤ) (st : Poll Entity)
      → last_id ≤ℤ after_id
      → IsBudgeted st
      → IsBudgeted (poll_pages env n remaining after_id remote st)
  unfolding poll_pages
  pages-IsBudgeted zero after_id st a v = v
  pages-IsBudgeted (suc n) after_id st a v =
      let later = λ (id : ℤ) (st' : Poll Entity). poll_pages env n remaining id remote st' in
      let answered =
        poll_answer env later remaining after_id remote st
          (env.fetch st.turn (poll_request env after_id remote)) in
      elim (ltb_ℤ after_id remote && ltb st.units (catch_up_units remaining))
        as (λ b. IsBudgeted (if b then answered else st)) [
          | true ↦
              answer-IsBudgeted later after_id st
                (env.fetch st.turn (poll_request env after_id remote)) (pages-IsBudgeted n) a v
          | false ↦ v
        ]
