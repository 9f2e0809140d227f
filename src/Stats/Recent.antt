-- ===== src/Stats/Recent.antt =====
-- Snapshots of the ring beside the list of what was pushed.
use tgvive.Prelude.{
  ℕ, List, [], ◌<◌, ◌∷◌, ◌-◌, ◌≡◌, arith, if◌then◌else◌, ltb, suc, leb, eqb, ap, Bool-cases, zero,
  inl, refl, sym, ◌∙◌, inr,
}
use tgvive.Stats.View.{
  last, first, view, event_at, contents, drop_nil, contents-view, view-length, drop-view,
  copy_events-view, zero_add,
}
use tgvive.Stats.Ring.{
  newer_events, clamp_limit, copy_events, snapshot_events, LogEvent, LogRing, new_log_ring,
}
use tgvive.Prelude.Int.{ℤ}
use tgvive.Stats.Pushes.{push_all, pushed_all, new_log_ring-IsRing, new_contents}

-- The events with an ID above `after_id`.
unfoldable pub newer : ℕ → List LogEvent → List LogEvent
newer after_id [] = []
newer after_id (ev ∷ evs) =
    if ltb after_id ev.id then ev ∷ newer after_id evs else newer after_id evs

-- A snapshot without an ID, and one after an ID, as functions of the contents.
copied :
    (r : LogRing) (n : ℕ) → copy_events r (r.size - n) (r.size - (r.size - n)) ≡ last n (contents r)
unfolding last
copied r n =
    let k = r.size - n in
    rw
      (
        contents-view r,
        view-length (event_at r) 0 r.size,
        drop-view (event_at r) k 0 r.size,
        copy_events-view r k (r.size - k),
        zero_add k,
      )
      refl

newer_nil : (after_id room : ℕ) → [] ≡ first room (newer after_id [])
unfolding newer first
newer_nil after_id zero = refl
newer_nil after_id (suc room) = refl

-- What one round of the loop does, in the terms of the specification.
newer_cons :
    (after_id room : ℕ) (ev : LogEvent) (evs : List LogEvent) (later : ℕ → List LogEvent)
    → 0 < room
    → ((m : ℕ) → 0 < m → later m ≡ first m (newer after_id evs))
    → (if leb ev.id after_id
        then later room
        else if leb room 1
        then ev ∷ []
        else ev ∷ later (room - 1))
      ≡ first room (newer after_id (ev ∷ evs))
unfolding newer first
newer_cons after_id zero ev evs later p h = absurd (omega arith)
newer_cons after_id (suc zero) ev evs later p h = ground (arith, h 1)
newer_cons after_id (suc (suc m)) ev evs later p h =
    let e : suc (suc m) - 1 ≡ suc m = omega arith in
    rw e (ground (arith, h (suc (suc m)), h (suc m)))

newer-view :
    (r : LogRing) (after_id i n room : ℕ)
    → 0 < room
    → newer_events r after_id i n room ≡ first room (newer after_id (view (event_at r) i n))
unfolding newer_events view event_at
newer-view r after_id i zero room p = newer_nil after_id room
newer-view r after_id i (suc n) room p =
    newer_cons after_id room (event_at r i) (view (event_at r) (suc i) n)
      (newer_events r after_id (suc i) n) p (newer-view r after_id (suc i) n)

clamp_limit_positive : (limit : ℤ) → 0 < clamp_limit limit
unfolding clamp_limit
clamp_limit_positive limit = ground arith

-- A snapshot as a function of the contents.
unfoldable pub shown : ℕ → ℤ → List LogEvent → List LogEvent
shown after_id limit evs =
    if eqb after_id 0
    then last (clamp_limit limit) evs
    else first (clamp_limit limit) (newer after_id evs)

shown_nil : (after_id : ℕ) (limit : ℤ) → shown after_id limit [] ≡ []
unfolding shown last newer
shown_nil after_id limit =
    ground (
      arith,
      drop_nil {A = LogEvent} (0 - clamp_limit limit),
      newer_nil after_id (clamp_limit limit),
    )

contents_nil : (r : LogRing) → r.size ≡ 0 → contents r ≡ []
unfolding copy_events
contents_nil r e = ap (copy_events r 0) e

newer-contents :
    (after_id : ℕ) (limit : ℤ) (r : LogRing)
    → newer_events r after_id 0 r.size (clamp_limit limit)
      ≡ first (clamp_limit limit) (newer after_id (contents r))
newer-contents after_id limit r =
    rw (contents-view r)
      (newer-view r after_id 0 r.size (clamp_limit limit) (clamp_limit_positive limit))

snapshot_shown :
    (after_id : ℕ) (limit : ℤ) (r : LogRing)
    → snapshot_events after_id limit r ≡ shown after_id limit (contents r)
unfolding snapshot_events shown
snapshot_shown after_id limit r = elim (Bool-cases (eqb r.size 0)) [
  | inl e ↦
      rw e
        (sym (ap (shown after_id limit) (contents_nil r (ground arith)) ∙ shown_nil after_id limit))
  | inr e ↦ rw e (ground (arith, copied r (clamp_limit limit), newer-contents after_id limit r))
]

-- A snapshot of a new ring after any pushes: without an ID the last events, with one the first ones
-- above it, both of the last `cap` events that were pushed and as many as the limit allows, which
-- stands for 50 where it is not positive and is 200 at most.
pub snapshot_events-Recent :
    (capacity limit : ℤ) (after_id : ℕ) (evs : List LogEvent)
    → snapshot_events after_id limit (push_all evs (new_log_ring capacity))
      ≡ shown after_id limit (last (new_log_ring capacity).cap evs)
snapshot_events-Recent capacity limit after_id evs =
    rw
      (
        snapshot_shown after_id limit (push_all evs (new_log_ring capacity)),
        pushed_all evs (new_log_ring capacity) (new_log_ring-IsRing capacity),
        new_contents capacity,
      )
      refl
