-- ===== src/BackTesting/Data/Queries.antt =====
-- What the queries of a back test see, after any history of queries and steps of time.
use marketblocks.Prelude.{
  drop-some, ℕ, ℤ, pos, Option, none, some, List, ◌∷◌, ◌≡◌, refl, sym, ◌⊎◌, inl, inr, arith, ◌∙◌,
  drop, All, ◌≤ℤ◌, ◌<ℤ◌, int_laws, lookup, insert_or_assign, lookup-insert_or_assign, Option-cases,
  Bool-cases,
}
use mathlib.Core.Path.{subst}
use mathlib.Core.Option.{some-injective}
use marketblocks.Double.{Double}
use marketblocks.Common.Run.{Run, returns, throws, undefined, or_undefined, and_then, with_state}
use marketblocks.Trading.Pair.{TradablePair, pair_equality}
use marketblocks.Trading.Market.{OhlcvData, TradeUpdate, no_trade}
use marketblocks.BackTesting.Cursor.{IteratorCache, get_iterator}
use marketblocks.BackTesting.Cursor.Locate.{
  IsRising, IsBehind, IsLatest, Located, Finds, get_iterator-Finds,
}
use marketblocks.BackTesting.Data.{
  BackTestingData, load, get_or_load_data, increment, search_data, candle_trade, trade_at,
  get_trade,
}

module _ {W : Type 0} where
  -- All candles are in order, no cached position is late, and time does not run backwards.
  pub record IsSound (b : BackTestingData W) : Type 0 where
    pub rising :
        (pair : TradablePair) (os : List (OhlcvData W))
        → lookup pair b.candles ≡ some os
        → IsRising os
    pub ready :
        (pair : TradablePair) (i : ℕ)
        → lookup pair b.iterator_cache ≡ some i
        → (os : List (OhlcvData W)) × (lookup pair b.candles ≡ some os) × IsBehind b.data_time os i
    pub loads : (pair : TradablePair) → IsRising (load b.data_source pair b.step_size)
    pub forward : pos 0 ≤ℤ b.step_size

  -- The candles that a query of a pair works on.
  abbrev pub candles_of : TradablePair → BackTestingData W → List (OhlcvData W)
  candles_of pair b = (get_or_load_data pair b).0

  with_candles : TradablePair → List (OhlcvData W) → BackTestingData W → BackTestingData W
  with_candles pair os b = record b { candles = insert_or_assign pair os b.candles }

  insert-IsSound :
      (pair : TradablePair) (os : List (OhlcvData W)) (b : BackTestingData W)
      → lookup pair b.candles ≡ none
      → IsRising os
      → IsSound b
      → IsSound (with_candles pair os b)
  unfolding with_candles
  insert-IsSound pair os b absent rising v =
      let written : (q : TradablePair) → _ = λ q. lookup-insert_or_assign pair q os b.candles in
      record {
        rising = λ q ps h. elim (Bool-cases (pair_equality.beq pair q)) [
          | inl same ↦ subst IsRising (some-injective _ _ (ground (arith, written q))) rising
          | inr differ ↦ v.rising q ps (ground (arith, written q))
        ];
        ready = λ q i h.
            let (ps, at, behind) = v.ready q i h in
            (ps, ground (arith, written q, (pair_equality.beq_iff pair q).0), behind);
        loads = v.loads;
        forward = v.forward;
      }

  load-found :
      (pair : TradablePair) (os : List (OhlcvData W)) (b : BackTestingData W)
      → lookup pair b.candles ≡ some os
      → get_or_load_data pair b ≡ (os, b)
  unfolding get_or_load_data
  load-found pair os b e = rw (get_or_load_data, e)

  load-absent :
      (pair : TradablePair) (b : BackTestingData W)
      → lookup pair b.candles ≡ none
      → let os = load b.data_source pair b.step_size in
        get_or_load_data pair b ≡ (os, with_candles pair os b)
  unfolding get_or_load_data with_candles
  load-absent pair b e = rw (get_or_load_data, e)

  -- Sound, with the candles in place and the time unchanged.
  abbrev IsLoaded : TradablePair → ℤ → List (OhlcvData W) × BackTestingData W → Type 0
  IsLoaded pair time (os, b) = IsSound b × (lookup pair b.candles ≡ some os) × (b.data_time ≡ time)

  pub load-IsLoaded :
      (pair : TradablePair) (b : BackTestingData W)
      → IsSound b
      → IsLoaded pair b.data_time (get_or_load_data pair b)
  unfolding with_candles
  load-IsLoaded pair b v = elim (Option-cases (lookup pair b.candles)) [
    | inr (os, e) ↦ rw (load-found pair os b e) (v, e, refl)
    | inl e ↦
        let os = load b.data_source pair b.step_size in
        rw (load-absent pair b e) (
          insert-IsSound pair os b e (v.loads pair) v,
          ground (
            arith,
            lookup-insert_or_assign pair pair os b.candles,
            pair_equality.beq_iff pair pair,
          ),
          refl,
        )
  ]

  pub increment-IsSound : (b : BackTestingData W) → IsSound b → IsSound (increment b)
  unfolding increment
  increment-IsSound b v = record {
    rising = v.rising;
    ready = λ pair i h.
        let (os, at, (o, there, behind)) = v.ready pair i h in
        (os, at, (o, there, omega (int_laws, behind, v.forward)));
    loads = v.loads;
    forward = v.forward;
  }

  -- The search succeeds, and the object stays sound.
  abbrev pub Searched : List (OhlcvData W) → ℤ → Run (BackTestingData W) (Option ℕ) → Type 0
  Searched os time (returns found b) = Located time os found × IsSound b
  Searched os time (throws e b) = ⊥
  Searched os time undefined = ⊥

  pub search_data-Searched :
      (pair : TradablePair) (os : List (OhlcvData W)) (b : BackTestingData W)
      → IsSound b
      → lookup pair b.candles ≡ some os
      → Searched os b.data_time (search_data os pair b)
  unfolding search_data
  search_data-Searched pair os b v at = kept (get_iterator os pair b.data_time b.iterator_cache) (
      get_iterator-Finds os pair b.data_time b.iterator_cache (v.rising pair os at) λ i h.
        let (ps, at', behind) = v.ready pair i h in
        subst (λ x. IsBehind b.data_time x i) (some-injective _ _ (sym at' ∙ at)) behind)
    where
      kept :
          (m : Run IteratorCache (Option ℕ))
          → Finds pair b.data_time os b.iterator_cache m
          → Searched os b.data_time (with_state (λ cache. record b { iterator_cache = cache }) m)
      kept (returns found cache) (located, keeps) = (
        located,
        record {
          rising = v.rising;
          ready = λ q i h. elim (keeps q i h) [
            | inl old ↦ v.ready q i old
            | inr (same, behind) ↦ (os, subst (λ x. lookup x b.candles ≡ some os) same at, behind)
          ];
          loads = v.loads;
          forward = v.forward;
        },
      )
      kept (throws e cache) h = h
      kept undefined h = h

module _ {W : Type 0} ⦃d : Double W⦄ where
  -- The trade that the candles show at a moment: none before the first of them, and otherwise the
  -- trade of the last candle that is not later.
  abbrev pub Shows : ℤ → List (OhlcvData W) → TradeUpdate W → Type 0
  Shows time os t =
      (All (λ (o : OhlcvData W). time <ℤ o.time_stamp) os × (t ≡ no_trade))
      ⊎ ((i : ℕ) × ((o : OhlcvData W) × ((after : List (OhlcvData W)) × IsLatest time os i
              × (drop i os ≡ o ∷ after)
              × (t ≡ candle_trade time o after))))

  abbrev pub Traded : ℤ → List (OhlcvData W) → Run (BackTestingData W) (TradeUpdate W) → Type 0
  Traded time os (returns t b) = Shows time os t × IsSound b
  Traded time os (throws e b) = ⊥
  Traded time os undefined = ⊥

  trade_at-some :
      (time : ℤ) (os after : List (OhlcvData W)) (i : ℕ) (o : OhlcvData W)
      → drop i os ≡ o ∷ after
      → trade_at time os (some i) ≡ some (candle_trade time o after)
  unfolding trade_at
  trade_at-some time os after i o e = rw (trade_at, e)

  trade_at-none : (time : ℤ) (os : List (OhlcvData W)) → trade_at time os none ≡ some no_trade
  unfolding trade_at
  trade_at-none time os = refl

  trade_of_search :
      (time : ℤ) (os : List (OhlcvData W)) (m : Run (BackTestingData W) (Option ℕ))
      → Searched os time m
      → Traded time os (and_then m λ found b. or_undefined (trade_at time os found) b)
  trade_of_search time os (returns none b) (early, v) =
      rw (trade_at-none time os) (inl (early, refl), v)
  trade_of_search time os (returns (some i) b) (latest, v) =
      let (after, left) = drop-some i os latest.0.0 latest.0.1 in
      rw (trade_at-some time os after i latest.0.0 left)
        (inr (i, (latest.0.0, (after, latest, left, refl))), v)
  trade_of_search time os (throws e b) h = h
  trade_of_search time os undefined h = h

  pub get_trade-Traded :
      (pair : TradablePair) (b : BackTestingData W)
      → IsSound b
      → Traded b.data_time (candles_of pair b) (get_trade pair b)
  unfolding get_trade
  get_trade-Traded pair b v =
      let (os, b') = get_or_load_data pair b in
      let (v', at, same) = load-IsLoaded pair b v in
      trade_of_search b.data_time os (search_data os pair b') (
        subst (λ t. Searched os t (search_data os pair b')) same
          (search_data-Searched pair os b' v' at))
