-- ===== src/Stats/Pushes.antt =====
-- A push, as it changes the contents of the ring.
use native.Mathlib.Nat
use native.Mathlib.Decide.{dec_lt}
use tgvive.Prelude.{
  ℕ, List, ◌∷◌, ◌<◌, ◌+◌, ◌≡◌, ◌≢◌, arith, ◌≤◌, ◌%◌, suc, ◌++◌, ◌∙◌, [], refl, length-append,
  append_nil, length, sym, ◌-◌, ap, drop, append_assoc,
}
use tgvive.Stats.Ring.{LogRing, LogEvent, push_event, put_event, new_log_ring, copy_events}
use tgvive.Stats.View.{
  event_at, view, last, contents, wrapped, view-agree, contents-length, view_snoc, last_short,
  last-append, contents-view, zero_add,
}
use tgvive.Prelude.Int.{ℤ}

unfoldable pub push_all : List LogEvent → LogRing → LogRing
push_all [] r = r
push_all (ev ∷ evs) r = push_all evs (push_event ev r)

pub record IsRing (r : LogRing) : Type 0 where
  pub positive : 0 < r.cap
  pub start_lt : r.start < r.cap
  pub size_le : r.size ≤ r.cap

-- Two places of the ring that are less than its length apart differ.
places_differ :
    (r : LogRing) (i j : ℕ)
    → r.start < r.cap
    → i < j
    → j < r.cap
    → (r.start + i) % r.cap ≢ (r.start + j) % r.cap
places_differ r i j s l m e =
    let a = wrapped (r.start + i) r.cap (omega arith) in
    let b = wrapped (r.start + j) r.cap (omega arith) in omega (arith, e, a, b)

-- The ring after a push into free room, and after one that replaces the oldest event.
abbrev grown : LogEvent → LogRing → LogRing
grown ev r = record r { buf = put_event ((r.start + r.size) % r.cap) ev r.buf; size = r.size + 1 }

abbrev moved : LogEvent → LogRing → LogRing
moved ev r = record r { buf = put_event r.start ev r.buf; start = (r.start + 1) % r.cap }

push_grown :
    (ev : LogEvent) (r : LogRing) → IsRing r → r.size < r.cap → push_event ev r ≡ grown ev r
unfolding push_event
push_grown ev r v l = let p = v.positive in ground arith

push_moved :
    (ev : LogEvent) (r : LogRing) → IsRing r → ¬ (r.size < r.cap) → push_event ev r ≡ moved ev r
unfolding push_event
push_moved ev r v l = let p = v.positive in ground arith

put_same : (k : ℕ) (ev : LogEvent) (buf : ℕ → LogEvent) → put_event k ev buf k ≡ ev
unfolding put_event
put_same k ev buf = ground arith

put_other : (k j : ℕ) (ev : LogEvent) (buf : ℕ → LogEvent) → j ≢ k → put_event k ev buf j ≡ buf j
unfolding put_event
put_other k j ev buf n = ground arith

pushed_open :
    (ev : LogEvent) (r : LogRing)
    → IsRing r
    → r.size < r.cap
    → contents (push_event ev r) ≡ contents r ++ ev ∷ []
unfolding event_at
pushed_open ev r v l =
    let k = (r.start + r.size) % r.cap in
    let e : r.size + 1 ≡ suc r.size = omega arith in
    let same = view-agree (event_at (grown ev r)) (event_at r) 0 0 r.size (λ j p.
      let z : 0 + j ≡ j = omega arith in
      rw z
        (put_other k ((r.start + j) % r.cap) ev r.buf (places_differ r j r.size v.start_lt p l))) in
    rw
      (
        push_grown ev r v l,
        contents-view (grown ev r),
        contents-view r,
        e,
        view_snoc (event_at (grown ev r)) 0 r.size,
        same,
        zero_add r.size,
      )
      (ap (λ x. view (event_at r) 0 r.size ++ x ∷ []) (put_same k ev r.buf))

-- The places of the ring after a move are those of the ring before it, one further.
moved_place :
    (ev : LogEvent) (r : LogRing) (j : ℕ)
    → IsRing r
    → suc j < r.cap
    → event_at (moved ev r) j ≡ event_at r (suc j)
unfolding event_at
moved_place ev r j v l =
    let s = v.start_lt in
    let b = wrapped (r.start + suc j) r.cap (omega arith) in
    let a : r.start + 1 + j ≡ r.start + suc j = omega arith in
    let d : (r.start + suc j) % r.cap ≢ r.start = omega (arith, b) in
    rw (Nat.mod-add-mod (r.start + 1) r.cap j, a)
      (put_other r.start ((r.start + suc j) % r.cap) ev r.buf d)

moved_last :
    (ev : LogEvent) (r : LogRing) (n : ℕ) → IsRing r → r.cap ≡ suc n → event_at (moved ev r) n ≡ ev
unfolding event_at
moved_last ev r n v e =
    let s = v.start_lt in
    let b = wrapped (r.start + suc n) r.cap (omega arith) in
    let a : r.start + 1 + n ≡ r.start + suc n = omega arith in
    let d : (r.start + suc n) % r.cap ≡ r.start = omega (arith, b, e) in
    rw (Nat.mod-add-mod (r.start + 1) r.cap n, a, d) (put_same r.start ev r.buf)

-- The contents after a move, for a ring that holds `suc n` events.
moved_contents :
    (ev : LogEvent) (r : LogRing) (n : ℕ)
    → IsRing r
    → r.cap ≡ suc n
    → view (event_at (moved ev r)) 0 (suc n) ≡ view (event_at r) 1 n ++ ev ∷ []
moved_contents ev r n v e =
    let same = view-agree (event_at (moved ev r)) (event_at r) 0 1 n (λ j p.
      let z : 0 + j ≡ j = omega arith in
      let y : 1 + j ≡ suc j = omega arith in rw (z, y) (moved_place ev r j v (omega (arith, e)))) in
    let z : 0 + n ≡ n = omega arith in
    rw (view_snoc (event_at (moved ev r)) 0 n, same, z, moved_last ev r n v e) refl

pushed_full :
    (ev : LogEvent) (r : LogRing)
    → IsRing r
    → ¬ (r.size < r.cap)
    → contents (push_event ev r) ≡ drop 1 (contents r ++ ev ∷ [])
unfolding view event_at
pushed_full ev r v l =
    let p = v.positive in
    let q = v.size_le in
    let a : r.cap ≡ suc (r.cap - 1) = omega arith in
    let e : r.size ≡ suc (r.cap - 1) = omega arith in
    rw (push_moved ev r v l, contents-view (moved ev r), contents-view r, e)
      (moved_contents ev r (r.cap - 1) v a)

push_event-IsRing : (ev : LogEvent) (r : LogRing) → IsRing r → IsRing (push_event ev r)
push_event-IsRing ev r v = elim (dec_lt r.size r.cap) [
  | yes l ↦
      rw (push_grown ev r v l)
        record { positive = v.positive; start_lt = v.start_lt; size_le = omega arith }
  | no l ↦ rw (push_moved ev r v l) record {
    positive = v.positive;
    start_lt = Nat.mod-lt (r.start + 1) v.positive;
    size_le = v.size_le;
  }
]

pub new_log_ring-IsRing : (capacity : ℤ) → IsRing (new_log_ring capacity)
unfolding new_log_ring
new_log_ring-IsRing capacity = record {
  positive = ground arith;
  start_lt = ground arith;
  size_le = ground arith;
}

-- The contents after a push are the last `cap` of what they were with the event behind.
pushed :
    (ev : LogEvent) (r : LogRing)
    → IsRing r
    → contents (push_event ev r) ≡ last r.cap (contents r ++ ev ∷ [])
unfolding last
pushed ev r v =
    let n = contents-length r in
    let a = length-append (contents r) (ev ∷ []) in
    elim (dec_lt r.size r.cap) [
      | yes l ↦
          (let e : length (contents r ++ ev ∷ []) - r.cap ≡ 0 = omega (arith, n, a) in
            pushed_open ev r v l ∙ ap (λ m. drop m (contents r ++ ev ∷ [])) (sym e))
      | no l ↦
          (let q = v.size_le in
            let e : length (contents r ++ ev ∷ []) - r.cap ≡ 1 = omega (arith, n, a) in
            pushed_full ev r v l ∙ ap (λ m. drop m (contents r ++ ev ∷ [])) (sym e))
    ]

push_event-cap : (ev : LogEvent) (r : LogRing) → (push_event ev r).cap ≡ r.cap
unfolding push_event
push_event-cap ev r = ground arith

push_all-cap : (evs : List LogEvent) (r : LogRing) → (push_all evs r).cap ≡ r.cap
unfolding push_all
push_all-cap [] r = refl
push_all-cap (ev ∷ evs) r = push_all-cap evs (push_event ev r) ∙ push_event-cap ev r

pub pushed_all :
    (evs : List LogEvent) (r : LogRing)
    → IsRing r
    → contents (push_all evs r) ≡ last r.cap (contents r ++ evs)
unfolding push_all
pushed_all [] r v =
    let n = contents-length r in
    let q = v.size_le in
    rw (append_nil (contents r)) (sym (last_short r.cap (contents r) (omega (arith, n, q))))
pushed_all (ev ∷ evs) r v =
    pushed_all evs (push_event ev r) (push_event-IsRing ev r v)
    ∙ ap (λ c. last c (contents (push_event ev r) ++ evs)) (push_event-cap ev r)
    ∙ rw
        (
          pushed ev r v,
          last-append r.cap (contents r ++ ev ∷ []) evs,
          append_assoc (contents r) (ev ∷ []) evs,
        )
        refl

pub new_contents : (capacity : ℤ) → contents (new_log_ring capacity) ≡ []
unfolding new_log_ring copy_events
new_contents capacity = refl
