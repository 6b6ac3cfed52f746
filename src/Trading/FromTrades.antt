-- ===== src/Trading/FromTrades.antt =====
-- trading/ohlcv_from_trades.h and .cpp: `class ohlcv_from_trades`, a candle that is kept up to date
-- trade by trade.
pub mod Bounds
pub mod Window
pub mod Merge
use marketblocks.Prelude.{
  ℤ, pos, List, foldl, ◌+ℤ◌, ◌-ℤ◌, ◌*ℤ◌, ◌/ℤ◌, ltb_ℤ, leb_ℤ, eqb_ℤ, if◌then◌else◌,
}
use marketblocks.Double.{Double, zero_double, max_double, min_double}
use marketblocks.Trading.Market.{OhlcvData, TradeUpdate}

pub record OhlcvFromTrades (W : Type 0) : Type 0 where
  pub start_time : ℤ
  pub opening : W
  pub high : W
  pub low : W
  pub close : W
  pub volume : W
  pub interval : ℤ
  pub last_time : ℤ

module _ {W : Type 0} where
  -- The constructor.
  unfoldable pub from_ohlcv : OhlcvData W → ℤ → OhlcvFromTrades W
  from_ohlcv o interval = record {
    start_time = o.time_stamp;
    opening = o.opening;
    high = o.high;
    low = o.low;
    close = o.close;
    volume = o.volume;
    interval = interval;
    last_time = o.time_stamp;
  }

module _ {W : Type 0} ⦃d : Double W⦄ where
  unfoldable pub start_new_candle : OhlcvFromTrades W → ℤ → OhlcvFromTrades W
  start_new_candle c current_time = record c {
    start_time = c.start_time +ℤ (current_time -ℤ c.start_time) /ℤ c.interval *ℤ c.interval;
    opening = c.close;
    high = c.close;
    low = c.close;
    volume = zero_double;
  }

  -- `if (time == _startTime) { _open = price; }`
  unfoldable pub open_with : OhlcvFromTrades W → ℤ → W → OhlcvFromTrades W
  open_with c time price = if eqb_ℤ time c.start_time then record c { opening = price } else c

  unfoldable pub widen : OhlcvFromTrades W → W → W → OhlcvFromTrades W
  widen c price volume = record c {
    high = max_double c.high price;
    low = min_double c.low price;
    volume = d.add c.volume volume;
  }

  -- `if (time > _lastTime) { _close = price; _lastTime = time; }`
  unfoldable pub close_with : OhlcvFromTrades W → ℤ → W → OhlcvFromTrades W
  close_with c time price =
      if ltb_ℤ c.last_time time then record c { close = price; last_time = time } else c

  -- The candle that a moment falls into, from the one that is kept.
  unfoldable pub roll : OhlcvFromTrades W → ℤ → OhlcvFromTrades W
  roll c time = if leb_ℤ (c.start_time +ℤ c.interval) time then start_new_candle c time else c

  unfoldable pub add_trade : OhlcvFromTrades W → TradeUpdate W → OhlcvFromTrades W
  add_trade c t =
      if ltb_ℤ t.time_stamp c.start_time
      then c
      else close_with
          (widen (open_with (roll c t.time_stamp) t.time_stamp t.price) t.price t.volume)
          t.time_stamp t.price

  unfoldable pub to_ohlcv : OhlcvFromTrades W → OhlcvData W
  to_ohlcv c = record {
    time_stamp = c.start_time;
    opening = c.opening;
    high = c.high;
    low = c.low;
    close = c.close;
    volume = c.volume;
  }

  -- The candle at a moment that is not before its start, and the object after the call.
  unfoldable pub get_ohlcv : OhlcvFromTrades W → ℤ → OhlcvData W × OhlcvFromTrades W
  get_ohlcv c current_time = let c' = roll c current_time in (to_ohlcv c', c')

  -- A history of trades.
  abbrev pub add_trades : OhlcvFromTrades W → List (TradeUpdate W) → OhlcvFromTrades W
  add_trades = foldl add_trade
