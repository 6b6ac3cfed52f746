-- ===== src/Trading/FromTrades/Bounds.antt =====
-- The prices of a candle lie between its low and its high.
use marketblocks.Prelude.{ℤ, List, [], ◌∷◌, All, arith}
use marketblocks.Double.{Double, ◌≼◌, IsNumber, IsOrdered, le-max_double, min_double-le}
use marketblocks.Trading.Market.{TradeUpdate}
use marketblocks.Trading.FromTrades.{
  OhlcvFromTrades, roll, open_with, widen, close_with, start_new_candle, add_trade, add_trades,
  get_ohlcv, to_ohlcv,
}

-- The opening and the closing price lie in the range.
pub record IsCandle {W : Type 0} ⦃d : Double W⦄ (c : OhlcvFromTrades W) : Type 0 where
  pub low_le_opening : c.low ≼ c.opening
  pub opening_le_high : c.opening ≼ c.high
  pub low_le_close : c.low ≼ c.close
  pub close_le_high : c.close ≼ c.high

-- A price that is a number.
abbrev pub IsPriced : {W : Type 0} ⦃d : Double W⦄ → TradeUpdate W → Type 0
IsPriced t = IsNumber t.price

module _ {W : Type 0} ⦃d : Double W⦄ (laws : IsOrdered W) where
  open laws use {numbers_of_le, le_trans}

  roll-IsCandle : (c : OhlcvFromTrades W) (time : ℤ) → IsCandle c → IsCandle (roll c time)
  unfolding roll start_new_candle
  roll-IsCandle c time v = ground (arith, numbers_of_le v.low_le_close)

  trade-IsCandle :
      (c : OhlcvFromTrades W) (time : ℤ) (price volume : W)
      → IsCandle c
      → IsNumber price
      → IsCandle (close_with (widen (open_with c time price) price volume) time price)
  unfolding open_with widen close_with
  trade-IsCandle c time price volume v p =
      let (_, high) = numbers_of_le v.opening_le_high in
      let (low, _) = numbers_of_le v.low_le_opening in
      let (above, above') = le-max_double laws c.high price high p in
      let (below, below') = min_double-le laws c.low price low p in
      ground (
        arith,
        le_trans below v.low_le_opening,
        le_trans below v.low_le_close,
        le_trans v.opening_le_high above,
        le_trans v.close_le_high above,
      )

  add_trade-IsCandle :
      (c : OhlcvFromTrades W) (t : TradeUpdate W)
      → IsCandle c
      → IsPriced t
      → IsCandle (add_trade c t)
  unfolding add_trade
  add_trade-IsCandle c t v p = ground (
    arith,
    trade-IsCandle (roll c t.time_stamp) t.time_stamp t.price t.volume
        (roll-IsCandle c t.time_stamp v) p,
  )

  add_trades-IsCandle :
      (c : OhlcvFromTrades W) (ts : List (TradeUpdate W))
      → IsCandle c
      → All IsPriced ts
      → IsCandle (add_trades c ts)
  add_trades-IsCandle c [] v p = v
  add_trades-IsCandle c (t ∷ ts) v (p, ps) =
      add_trades-IsCandle (add_trade c t) ts (add_trade-IsCandle c t v p) ps

  -- From a candle whose opening and closing prices lie between its low and its high, whatever trades
  -- at prices that are numbers are added, late ones included, the candle that is reported at any
  -- moment has them there too.
  pub get_ohlcv-add_trades-bounds :
      (c : OhlcvFromTrades W) (ts : List (TradeUpdate W)) (now : ℤ)
      → IsCandle c
      → All IsPriced ts
      → let o = (get_ohlcv (add_trades c ts) now).0 in
        (o.low ≼ o.opening) × (o.opening ≼ o.high) × (o.low ≼ o.close) × (o.close ≼ o.high)
  unfolding get_ohlcv to_ohlcv
  get_ohlcv-add_trades-bounds c ts now v p =
      let w = roll-IsCandle (add_trades c ts) now (add_trades-IsCandle c ts v p) in
      (w.low_le_opening, w.opening_le_high, w.low_le_close, w.close_le_high)
