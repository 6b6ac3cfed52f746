-- ===== src/BackTesting/Data.antt =====
-- testing/back_testing/back_testing_data.h and .cpp: `class back_testing_data`. The data source, an
-- abstract class that may be absent, is a function from a pair and a step to candles.
pub mod Queries
use marketblocks.Prelude.{
  ℕ, ℤ, pos, zero, suc, ◌+◌, ◌-◌, ◌&&◌, Option, none, some, List, [], ◌∷◌, foldl, length, get_elem?,
  take, drop, ◌==◌, nat_equality, ◌+ℤ◌, ◌-ℤ◌, ltb_ℤ, eqb_ℤ, Map, lookup, insert_or_assign,
  if◌then◌else◌,
}
use marketblocks.Double.{Double, zero_double, max_double, min_double}
use marketblocks.Common.Run.{Run, returns, throws, undefined, or_undefined, and_then, with_state}
use marketblocks.Trading.Pair.{TradablePair, pair_equality}
use marketblocks.Trading.Market.{
  OhlcvData, TradeUpdate, OrderBookEntry, OrderBookState, ask, bid, no_trade,
}
use marketblocks.BackTesting.Cursor.{IteratorCache, get_iterator}

pub record BackTestingData (W : Type 0) : Type 0 where
  pub tradable_pairs : List TradablePair
  pub candles : Map TradablePair (List (OhlcvData W))
  pub start_time : ℤ
  pub end_time : ℤ
  pub step_size : ℤ
  pub time_steps : ℤ
  pub data_source : Option (TradablePair → ℤ → List (OhlcvData W))
  pub data_time : ℤ
  pub iterator_cache : IteratorCache

module _ {W : Type 0} where
  unfoldable pub new_back_testing_data :
      List TradablePair
      → Map TradablePair (List (OhlcvData W))
      → ℤ
      → ℤ
      → ℤ
      → ℤ
      → Option (TradablePair → ℤ → List (OhlcvData W))
      → BackTestingData W
  new_back_testing_data pairs candles start_time end_time step_size time_steps source = record {
    tradable_pairs = pairs;
    candles = candles;
    start_time = start_time;
    end_time = end_time;
    step_size = step_size;
    time_steps = time_steps;
    data_source = source;
    data_time = start_time;
    iterator_cache = [];
  }

  -- What `get_or_load_data` finds for a pair that is not loaded.
  abbrev pub load :
      Option (TradablePair → ℤ → List (OhlcvData W)) → TradablePair → ℤ → List (OhlcvData W)
  load none pair step_size = []
  load (some load_data) pair step_size = load_data pair step_size

  unfoldable pub get_or_load_data :
      TradablePair → BackTestingData W → List (OhlcvData W) × BackTestingData W
  unfolding lookup
  get_or_load_data pair b = elim (lookup pair b.candles) [
    | some os ↦ (os, b)
    | none ↦
        let os = load b.data_source pair b.step_size in
        (os, record b { candles = insert_or_assign pair os b.candles })
  ]

  unfoldable pub increment : BackTestingData W → BackTestingData W
  increment b = record b { data_time = b.data_time +ℤ b.step_size }

  -- The search of a pair's candles, whose cache is a field of the object.
  unfoldable pub search_data :
      List (OhlcvData W) → TradablePair → BackTestingData W → Run (BackTestingData W) (Option ℕ)
  search_data os pair b =
      with_state (λ cache. record b { iterator_cache = cache })
        (get_iterator os pair b.data_time b.iterator_cache)

module _ {W : Type 0} ⦃d : Double W⦄ where
  -- The trade that a candle stands for; `last` tells that no candle follows it.
  unfoldable pub candle_trade : ℤ → OhlcvData W → List (OhlcvData W) → TradeUpdate W
  candle_trade time o after = record {
    time_stamp = o.time_stamp;
    price = elim after [
      | [] ↦ if ltb_ℤ o.time_stamp time then o.close else o.opening
      | p ∷ ps ↦ o.opening
    ];
    volume = o.volume;
  }

  unfoldable pub trade_at : ℤ → List (OhlcvData W) → Option ℕ → Option (TradeUpdate W)
  unfolding candle_trade
  trade_at time os none = some no_trade
  trade_at time os (some i) = elim (drop i os) [
    | [] ↦ none
    | o ∷ after ↦ some (candle_trade time o after)
  ]

  unfoldable pub get_trade :
      TradablePair → BackTestingData W → Run (BackTestingData W) (TradeUpdate W)
  unfolding get_or_load_data search_data trade_at
  get_trade pair b =
      let (os, b') = get_or_load_data pair b in
      and_then (search_data os pair b')
        λ found b''. or_undefined (trade_at b.data_time os found) b''

  unfoldable pub book_at : List (OhlcvData W) → Option ℕ → Option (OrderBookState W)
  book_at os none = some (record { time_stamp = pos 0; asks = []; bids = [] })
  book_at os (some i) = elim (get_elem? os i) [
    | none ↦ none
    | some o ↦ some (record {
      time_stamp = o.time_stamp;
      asks = record { price = o.high; volume = o.volume; side = ask } ∷ [];
      bids = record { price = o.low; volume = o.volume; side = bid } ∷ [];
    })
  ]

  unfoldable pub get_order_book :
      TradablePair → BackTestingData W → Run (BackTestingData W) (OrderBookState W)
  unfolding get_or_load_data search_data book_at
  get_order_book pair b =
      let (os, b') = get_or_load_data pair b in
      and_then (search_data os pair b') λ found b''. or_undefined (book_at os found) b''
