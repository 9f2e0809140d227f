-- ===== src/Strategy/Cache.antt =====
-- What the cache answers.
use tgvive.Prelude.{
  Option, ◌≡◌, if◌then◌else◌, not, eqb, ◌&&◌, some, [], arith, none, Option-cases, inr, inl,
}
use tgvive.Prelude.{refl}
use tgvive.Prelude.Int.{ℤ, pos, ◌<ℤ◌, eqb_ℤ, int_eq}
use tgvive.Strategy.{Strategy, get_strategy, set_strategy, invalidate, StrategyCache, int64_of}
use tgvive.Prelude.Map.{lookup, insert, lookup-insert, delete, lookup-delete}

abbrev no_strategies : StrategyCache
no_strategies = []

nothing : (id : ℤ) → lookup id no_strategies ≡ none
unfolding lookup
nothing id = refl

module _ (db : ℤ → Option Strategy) where
  -- What the database gives for an ID, if it is a strategy of that ID.
  from_db : ℤ → Option Strategy
  from_db id = elim (db id) [
    | none ↦ none
    | some s ↦ if not (eqb s.id 0) && eqb_ℤ (int64_of s.id) id then some s else none
  ]

  -- The answer: the cached strategy, or the database's.
  get_answer :
      (id : ℤ) (c : StrategyCache)
      → pos 0 <ℤ id
      → (get_strategy db id c).1 ≡ (elim (lookup id c) [ some st ↦ some st | none ↦ from_db id ])
  unfolding get_strategy set_strategy from_db
  get_answer id c h = elim (Option-cases (lookup id c)) [
    | inr (st, e) ↦ ground (arith, e)
    | inl e ↦ elim (Option-cases (db id)) [
      | inl n ↦ ground (arith, e, n)
      | inr (s, n) ↦ ground (arith, e, n, lookup-insert id (int64_of s.id) s c)
    ]
  ]

  -- What a strategy is asked for after a change that was made known: a strategy that was set is the
  -- answer, and one that was dropped is read from the database again; the answers for other IDs stay.
  pub get_strategy-after :
      (strategy : Strategy) (id : ℤ) (c : StrategyCache)
      → pos 0 <ℤ id
      → ((get_strategy db id (set_strategy strategy c)).1 ≡ (
          if not (eqb strategy.id 0) && eqb_ℤ (int64_of strategy.id) id
          then some strategy
          else (get_strategy db id c).1))
        × ((other : ℤ)
            → pos 0 <ℤ other
            → (get_strategy db id (invalidate other c)).1
              ≡ (if eqb_ℤ other id then (get_strategy db id []).1 else (get_strategy db id c).1))
  unfolding set_strategy invalidate
  get_strategy-after strategy id c h = (
    ground (
      arith,
      get_answer id c h,
      get_answer id (insert (int64_of strategy.id) strategy c) h,
      lookup-insert id (int64_of strategy.id) strategy c,
    ),
    λ other p.
        (let e : invalidate other c ≡ delete other c = ground (arith, p) in
          rw e (
            ground (
              arith,
              get_answer id c h,
              get_answer id [] h,
              get_answer id (delete other c) h,
              lookup-delete id other c,
              nothing id,
            ))),
  )
