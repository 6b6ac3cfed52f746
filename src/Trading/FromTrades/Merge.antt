-- ===== src/Trading/FromTrades/Merge.antt =====
-- Trades in order within one interval: the candle against a summary of the whole run.
use marketblocks.Prelude.{ℤ, List, [], ◌∷◌, foldl, arith, ◌≡◌, refl, ◌<ℤ◌, ◌≤ℤ◌, ◌+ℤ◌}
use marketblocks.Double.{Double, max_double, min_double}
use marketblocks.Trading.Market.{TradeUpdate}
use marketblocks.Trading.FromTrades.{
  OhlcvFromTrades, roll, open_with, widen, close_with, add_trade, add_trades,
}

module _ {W : Type 0} where
  -- The trades come in strictly rising order of time, after `last` and before `end`.
  abbrev pub Rises : ℤ → ℤ → List (TradeUpdate W) → Type 0
  Rises last end [] = Unit {0}
  Rises last end (t ∷ ts) =
      (last <ℤ t.time_stamp) × (t.time_stamp <ℤ end) × Rises t.time_stamp end ts

  -- The last trade of a run, or the price and the time to fall back on.
  abbrev last_price : W → List (TradeUpdate W) → W
  last_price p [] = p
  last_price p (t ∷ ts) = last_price t.price ts

  abbrev last_stamp : ℤ → List (TradeUpdate W) → ℤ
  last_stamp s [] = s
  last_stamp s (t ∷ ts) = last_stamp t.time_stamp ts

module _ {W : Type 0} ⦃d : Double W⦄ where
  abbrev pub highest : W → List (TradeUpdate W) → W
  highest = foldl λ m t. max_double m t.price

  abbrev pub lowest : W → List (TradeUpdate W) → W
  lowest = foldl λ m t. min_double m t.price

  abbrev pub total_volume : W → List (TradeUpdate W) → W
  total_volume = foldl λ v t. d.add v t.volume

  -- The candle of a run, in one step.
  abbrev pub summary : OhlcvFromTrades W → List (TradeUpdate W) → OhlcvFromTrades W
  summary c ts = record c {
    high = highest c.high ts;
    low = lowest c.low ts;
    volume = total_volume c.volume ts;
    close = last_price c.close ts;
    last_time = last_stamp c.last_time ts;
  }

  add_trade-summary :
      (c : OhlcvFromTrades W) (t : TradeUpdate W)
      → c.start_time ≤ℤ c.last_time
      → c.last_time <ℤ t.time_stamp
      → t.time_stamp <ℤ c.start_time +ℤ c.interval
      → add_trade c t ≡ summary c (t ∷ [])
  unfolding add_trade roll open_with widen close_with
  add_trade-summary c t h before inside = ground arith

  -- Trades that come in strictly rising order of time, all after the candle's last trade and inside
  -- its interval, give the candle whose high, low and volume are the maximum, the minimum and the
  -- sum over the run, whose close is the price of the last trade, and whose start and opening price
  -- are unchanged.
  pub add_trades-summary :
      (c : OhlcvFromTrades W) (ts : List (TradeUpdate W))
      → c.start_time ≤ℤ c.last_time
      → Rises c.last_time (c.start_time +ℤ c.interval) ts
      → add_trades c ts ≡ summary c ts
  add_trades-summary c [] h r = refl
  add_trades-summary c (t ∷ ts) h (before, inside, rest) =
      rw (add_trade-summary c t h before inside)
        (add_trades-summary (summary c (t ∷ [])) ts (omega arith) rest)
