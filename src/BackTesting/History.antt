-- ===== src/BackTesting/History.antt =====
-- A back test as a history of queries and steps of time.
use marketblocks.Prelude.{
  ℕ, ℤ, pos, get_elem?, Option, none, some, List, [], ◌∷◌, ◌≡◌, refl, arith, ◌≤ℤ◌, lookup,
}
use marketblocks.Double.{Double}
use marketblocks.Common.Run.{Run, returns, throws, undefined, or_undefined, and_then, after}
use marketblocks.Trading.Pair.{TradablePair, pair_equality}
use marketblocks.Trading.Market.{OhlcvData, TradeUpdate, OrderBookState}
use marketblocks.BackTesting.Cursor.Locate.{IsRising}
use marketblocks.BackTesting.Data.Queries.{
  IsSound, Searched, Traded, candles_of, get_trade-Traded, increment-IsSound, load-IsLoaded,
  search_data-Searched,
}
use marketblocks.BackTesting.Candles.{get_ohlcv}
use marketblocks.BackTesting.Candles.Reported.{Reported, get_ohlcv-Reported}
use marketblocks.BackTesting.Data.{
  BackTestingData, load, get_or_load_data, increment, search_data, get_trade, book_at,
  get_order_book,
}

-- The calls of a back test.
pub data Query : Type 0 where
  trades books : TradablePair → Query
  candles : TradablePair → ℤ → ℕ → Query
  ticks : Query

module _ {W : Type 0} ⦃d : Double W⦄ where
  unfoldable pub query : Query → BackTestingData W → BackTestingData W
  query (trades pair) b = after b (get_trade pair b)
  query (books pair) b = after b (get_order_book pair b)
  query (candles pair interval count) b = after b (get_ohlcv pair interval count b)
  query ticks b = increment b

  unfoldable pub queries : List Query → BackTestingData W → BackTestingData W
  queries [] b = b
  queries (q ∷ qs) b = queries qs (query q b)

  abbrev Booked : Run (BackTestingData W) (OrderBookState W) → Type 0
  Booked (returns book b) = IsSound b
  Booked (throws e b) = ⊥
  Booked undefined = ⊥

  book_at-none :
      (os : List (OhlcvData W)) → (book : OrderBookState W) × (book_at os none ≡ some book)
  unfolding book_at
  book_at-none os = (_, refl)

  book_at-some :
      (os : List (OhlcvData W)) (i : ℕ) (o : OhlcvData W)
      → get_elem? os i ≡ some o
      → (book : OrderBookState W) × (book_at os (some i) ≡ some book)
  unfolding book_at
  book_at-some os i o e = rw (book_at, e) (_, refl)

  book_of_search :
      (time : ℤ) (os : List (OhlcvData W)) (m : Run (BackTestingData W) (Option ℕ))
      → Searched os time m
      → Booked (and_then m λ found b. or_undefined (book_at os found) b)
  book_of_search time os (returns none b) (early, v) = rw (book_at-none os).1 v
  book_of_search time os (returns (some i) b) (latest, v) =
      rw (book_at-some os i latest.0.0 latest.0.1).1 v
  book_of_search time os (throws e b) h = h
  book_of_search time os undefined h = h

  get_order_book-Booked :
      (pair : TradablePair) (b : BackTestingData W) → IsSound b → Booked (get_order_book pair b)
  unfolding get_order_book
  get_order_book-Booked pair b v =
      let (os, b') = get_or_load_data pair b in
      let (v', at, same) = load-IsLoaded pair b v in
      book_of_search b'.data_time os (search_data os pair b')
        (search_data-Searched pair os b' v' at)

  Traded-IsSound :
      (time : ℤ) (os : List (OhlcvData W)) (b : BackTestingData W)
      (m : Run (BackTestingData W) (TradeUpdate W))
      → Traded time os m
      → IsSound (after b m)
  Traded-IsSound time os b (returns t b') (shows, v) = v
  Traded-IsSound time os b (throws e b') h = absurd h
  Traded-IsSound time os b undefined h = absurd h

  Reported-IsSound :
      (time interval : ℤ) (count : ℕ) (os : List (OhlcvData W)) (b : BackTestingData W)
      (m : Run (BackTestingData W) (List (OhlcvData W)))
      → Reported time interval count os m
      → IsSound (after b m)
  Reported-IsSound time interval count os b (returns ms b') (reports, v) = v
  Reported-IsSound time interval count os b (throws e b') h = absurd h
  Reported-IsSound time interval count os b undefined h = absurd h

  Booked-IsSound :
      (b : BackTestingData W) (m : Run (BackTestingData W) (OrderBookState W))
      → Booked m
      → IsSound (after b m)
  Booked-IsSound b (returns book b') v = v
  Booked-IsSound b (throws e b') h = absurd h
  Booked-IsSound b undefined h = absurd h

  pub queries-IsSound :
      (qs : List Query) (b : BackTestingData W) → IsSound b → IsSound (queries qs b)
  unfolding queries query
  queries-IsSound [] b v = v
  queries-IsSound (trades pair ∷ qs) b v = queries-IsSound qs _ (
      Traded-IsSound b.data_time (candles_of pair b) b (get_trade pair b)
        (get_trade-Traded pair b v))
  queries-IsSound (books pair ∷ qs) b v =
      queries-IsSound qs _
        (Booked-IsSound b (get_order_book pair b) (get_order_book-Booked pair b v))
  queries-IsSound (candles pair interval count ∷ qs) b v = queries-IsSound qs _ (
      Reported-IsSound b.data_time interval count (candles_of pair b) b
        (get_ohlcv pair interval count b) (get_ohlcv-Reported pair interval count b v))
  queries-IsSound (ticks ∷ qs) b v = queries-IsSound qs _ (increment-IsSound b v)

  -- A new object over candles in strictly rising order of time, from the map or from the source,
  -- with a step that is not negative.
  pub record IsPrepared (b : BackTestingData W) : Type 0 where
    pub rising :
        (pair : TradablePair) (os : List (OhlcvData W))
        → lookup pair b.candles ≡ some os
        → IsRising os
    pub loads : (pair : TradablePair) → IsRising (load b.data_source pair b.step_size)
    pub forward : pos 0 ≤ℤ b.step_size
    pub fresh : b.iterator_cache ≡ []

  pub IsPrepared-IsSound : (b : BackTestingData W) → IsPrepared b → IsSound b
  unfolding lookup
  IsPrepared-IsSound b p = record {
    rising = p.rising;
    ready = λ pair i h. absurd (ground (arith, p.fresh));
    loads = p.loads;
    forward = p.forward;
  }

  -- In a back test over candles in strictly rising order of time, with a step that is not negative,
  -- after any history of queries for trades, books and candles and of steps of time, a query for a trade is
  -- defined and shows the last candle that is not later than the time of the test, whatever earlier
  -- queries have left in the cache: its open, or its close once the time is past the last candle, or
  -- no trade before the first.
  pub get_trade-queries-Traded :
      (b : BackTestingData W) (qs : List Query) (pair : TradablePair)
      → IsPrepared b
      → Traded
          (queries qs b).data_time
          (candles_of pair (queries qs b))
          (get_trade pair (queries qs b))
  get_trade-queries-Traded b qs pair p =
      get_trade-Traded pair (queries qs b) (queries-IsSound qs b (IsPrepared-IsSound b p))
