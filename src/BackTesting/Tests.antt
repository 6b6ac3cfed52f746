-- ===== src/BackTesting/Tests.antt =====
-- A back test over two candles of a minute each.
use marketblocks.Prelude.{
  ℕ, ℤ, pos, none, some, Option, List, [], ◌∷◌, ◌≡◌, refl, arith, lookup, insert_or_assign,
  lookup_or, map,
}
use marketblocks.Double.Fixed.{Fixed, fixed_double, runs_fixed}
use marketblocks.Common.Run.{Run, returns}
use marketblocks.Common.Text.{codes}
use marketblocks.Trading.Pair.{TradablePair, pair_equality}
use marketblocks.Trading.Market.{OhlcvData, TradeUpdate}
use marketblocks.BackTesting.Cursor.{scan, get_iterator}
use marketblocks.BackTesting.Cursor.Locate.{IsRising, Finds, get_iterator-Finds}
use marketblocks.BackTesting.Data.{
  BackTestingData, new_back_testing_data, get_or_load_data, increment, search_data, candle_trade,
  trade_at, get_trade, book_at, get_order_book,
}
use marketblocks.BackTesting.Candles.{
  get_ohlcv, candles_from, candles_at, merge_rounds, merge_round, merge_ohlcv, merge_one, rewind,
  end_of,
}
use marketblocks.Double.{max_double, min_double}
use marketblocks.BackTesting.Candles.Reported.{Reported}
use marketblocks.BackTesting.Data.Queries.{Traded, candles_of}
use marketblocks.BackTesting.History.{
  Query, trades, books, ticks, query, queries, IsPrepared, get_trade-queries-Traded, candles,
}

abbrev btc_gbp : TradablePair
btc_gbp = record { asset = codes "BTC"; price_unit = codes "GBP" }

abbrev candle : ℤ → ℤ → OhlcvData Fixed
candle time price = record {
  time_stamp = time;
  opening = price;
  high = price;
  low = price;
  close = pos 90_000;
  volume = pos 10_000;
}

abbrev minutes : List (OhlcvData Fixed)
minutes = candle (pos 600) (pos 50_000) ∷ candle (pos 660) (pos 70_000) ∷ []

abbrev source : TradablePair → ℤ → List (OhlcvData Fixed)
source pair step = minutes

-- Nothing is loaded; the source has two minutes for every pair.
start : BackTestingData Fixed
unfolding new_back_testing_data
start = new_back_testing_data (btc_gbp ∷ []) [] (pos 600) (pos 720) (pos 60) (pos 2) (some source)

-- Every definition that a back test goes through.
runs_test : ℕ
unfolding runs_fixed start new_back_testing_data get_or_load_data increment search_data candle_trade
    trade_at get_trade book_at get_order_book query queries lookup insert_or_assign lookup_or scan
    get_iterator get_ohlcv candles_from candles_at merge_rounds merge_round merge_ohlcv merge_one
    rewind end_of max_double min_double
runs_test = 0

abbrev history : List Query
history = trades btc_gbp ∷ ticks ∷ books btc_gbp ∷ candles btc_gbp (pos 60) 1 ∷ ticks ∷ []

abbrev shown : Run (BackTestingData Fixed) (TradeUpdate Fixed) → Option Fixed
shown (returns t b) = some t.price
shown _ = none

abbrev reported :
    Run (BackTestingData Fixed) (List (OhlcvData Fixed)) → Option (List (Fixed × Fixed))
reported (returns ms b) = some (map (λ (m : OhlcvData Fixed). (m.opening, m.high)) ms)
reported _ = none

-- A minute after the last candle the price is its close.
closes : shown (get_trade btc_gbp (queries history start)) ≡ some (pos 90_000)
unfolding runs_test
closes = refl

-- Two minutes in one candle: the high of the second, the open of the first.
merges :
    reported (get_ohlcv btc_gbp (pos 120) 3 (queries history start))
    ≡ some ((pos 50_000, pos 70_000) ∷ [])
unfolding runs_test
merges = refl

minutes-IsRising : IsRising minutes
minutes-IsRising = ((omega arith, tt), (tt, tt))

get_iterator-Finds_example :
    Finds btc_gbp (pos 650) minutes [] (get_iterator minutes btc_gbp (pos 650) [])
unfolding lookup
get_iterator-Finds_example =
    get_iterator-Finds minutes btc_gbp (pos 650) [] minutes-IsRising (λ i e. cc)

start-IsPrepared : IsPrepared start
unfolding start new_back_testing_data lookup
start-IsPrepared = record {
  rising = λ pair os e. cc;
  loads = λ pair. minutes-IsRising;
  forward = omega arith;
  fresh = refl;
}

get_trade-queries-Traded_example :
    Traded
      (queries history start).data_time
      (candles_of btc_gbp (queries history start))
      (get_trade btc_gbp (queries history start))
get_trade-queries-Traded_example = get_trade-queries-Traded start history btc_gbp start-IsPrepared
