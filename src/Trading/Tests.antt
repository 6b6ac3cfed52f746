-- ===== src/Trading/Tests.antt =====
-- A candle that is fed three trades, and the theorems at inputs that meet their hypotheses.
use marketblocks.Prelude.{some, ◌-ℤ◌, ℕ, ℤ, pos, List, [], ◌∷◌, ◌≡◌, refl, arith, ◌≤ℤ◌, ◌<ℤ◌, ◌+ℤ◌}
use marketblocks.Double.{◌≼◌}
use marketblocks.Double.Fixed.{Fixed, fixed_double, runs_fixed, Fixed-IsOrdered}
use marketblocks.Trading.Market.{OhlcvData, TradeUpdate}
use marketblocks.Trading.FromTrades.{
  OhlcvFromTrades, add_trades, get_ohlcv, add_trade, roll, start_new_candle, close_with, widen,
  open_with, to_ohlcv,
}
use marketblocks.Trading.MovingCandle.{
  MovingCandle, new_moving_candle, get_offset_trades, window_ohlcv, get_moving_ohlcv,
}
use marketblocks.Trading.MovingCandle.History.{pushes, reads, moves, get_moving_ohlcv-moves}
use marketblocks.Trading.FromTrades.Bounds.{get_ohlcv-add_trades-bounds}
use marketblocks.Trading.FromTrades.Window.{Follows, get_ohlcv-add_trades-window}
use marketblocks.Trading.FromTrades.Merge.{summary, add_trades-summary}

abbrev trade : ℤ → ℤ → TradeUpdate Fixed
trade time price = record { time_stamp = time; price = price; volume = pos 10_000 }

-- A minute's candle that starts at 600.
abbrev first : OhlcvFromTrades Fixed
first = record {
  start_time = pos 600;
  opening = pos 50_000;
  high = pos 60_000;
  low = pos 40_000;
  close = pos 50_000;
  volume = pos 0;
  interval = pos 60;
  last_time = pos 600;
}

abbrev trades : List (TradeUpdate Fixed)
trades = trade (pos 610) (pos 70_000) ∷ trade (pos 640) (pos 30_000) ∷ []

abbrev later : List (TradeUpdate Fixed)
later = trade (pos 610) (pos 70_000) ∷ trade (pos 745) (pos 30_000) ∷ []

-- Every definition that a run of the candle goes through.
runs_candle : ℕ
unfolding runs_fixed add_trade roll start_new_candle close_with widen open_with get_ohlcv to_ohlcv
runs_candle = 0

rolls : (add_trades first later).start_time ≡ pos 720
unfolding runs_candle
rolls = refl

add_trades-summary_example : add_trades first trades ≡ summary first trades
unfolding ◌+ℤ◌
add_trades-summary_example =
    add_trades-summary first trades (omega arith)
      (omega arith, omega arith, (omega arith, omega arith, tt))

get_ohlcv-add_trades-window_example :
    let o = (get_ohlcv (add_trades first later) (pos 900)).0 in
    (o.time_stamp ≤ℤ pos 900)
    × (pos 900 <ℤ o.time_stamp +ℤ pos 60)
    × Follows (pos 60) (pos 600) o.time_stamp
unfolding runs_candle
get_ohlcv-add_trades-window_example =
    get_ohlcv-add_trades-window first later (pos 900) (omega arith) (omega arith)

get_ohlcv-add_trades-bounds_example :
    let o = (get_ohlcv (add_trades first later) (pos 900)).0 in
    (o.low ≼ o.opening) × (o.opening ≼ o.high) × (o.low ≼ o.close) × (o.close ≼ o.high)
get_ohlcv-add_trades-bounds_example =
    get_ohlcv-add_trades-bounds Fixed-IsOrdered first later (pos 900)
      (record {
        low_le_opening = refl;
        opening_le_high = refl;
        low_le_close = refl;
        close_le_high = refl;
      })
      (refl, (refl, tt))

-- A minute that ends ten seconds before the moment it is read at.
get_moving_ohlcv-moves_example :
    (c : MovingCandle Fixed) × ((c' : MovingCandle Fixed) × ((o : OhlcvData Fixed) × (moves
            (pushes (trade (pos 610) (pos 70_000)) ∷ reads (pos 640) ∷ [])
            (new_moving_candle (pos 60) (pos 10))
          ≡ some c)
        × (get_moving_ohlcv c (pos 700) ≡ some (o, c'))
        × (window_ohlcv (c'.start_time -ℤ c'.offset) (get_offset_trades c') ≡ some o)))
get_moving_ohlcv-moves_example =
    get_moving_ohlcv-moves (pos 60) (pos 10) (omega arith, omega arith, omega arith)
      (trade (pos 610) (pos 70_000)) (reads (pos 640) ∷ []) (pos 700) (omega arith, tt)
