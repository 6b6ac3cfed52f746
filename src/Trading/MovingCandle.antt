-- ===== src/Trading/MovingCandle.antt =====
-- trading/moving_candle.h and .cpp: `class moving_candle`, a candle over a window that moves with
-- time. `none` is a read of the front of an empty deque or vector, which C++ leaves undefined.
pub mod Defined
pub mod History
use marketblocks.Prelude.{
  ℤ, pos, Option, none, some, List, [], ◌∷◌, ◌++◌, foldl, ◌>>=◌, ◌+ℤ◌, ◌-ℤ◌, ltb_ℤ, leb_ℤ, eqb_ℤ,
  if◌then◌else◌,
}
use marketblocks.Double.{Double, zero_double, max_double, min_double}
use marketblocks.Common.Finance.{calculate_cost}
use marketblocks.Trading.Market.{OhlcvData, TradeUpdate, no_ohlcv}

pub record MovingCandle (W : Type 0) : Type 0 where
  pub interval : ℤ
  pub offset : ℤ
  pub trades : List (TradeUpdate W)
  pub start_time : ℤ

module _ {W : Type 0} where
  unfoldable pub new_moving_candle : ℤ → ℤ → MovingCandle W
  new_moving_candle interval offset = record {
    interval = interval;
    offset = offset;
    trades = [];
    start_time = pos 0;
  }

  -- The trades up to the first one that is later than a moment.
  unfoldable pub up_to : ℤ → List (TradeUpdate W) → List (TradeUpdate W)
  up_to bound [] = []
  up_to bound (t ∷ ts) =
      let rest = up_to bound ts in if leb_ℤ t.time_stamp bound then t ∷ rest else []

  unfoldable pub get_offset_trades : MovingCandle W → List (TradeUpdate W)
  unfolding up_to
  get_offset_trades c =
      if eqb_ℤ c.offset (pos 0)
      then c.trades
      else up_to (c.start_time +ℤ c.interval -ℤ c.offset) c.trades

  -- `if (currentTime - _offset >= _startTime + _interval)`
  unfoldable pub move_start : MovingCandle W → ℤ → ℤ
  move_start c current_time =
      if leb_ℤ (c.start_time +ℤ c.interval) (current_time -ℤ c.offset)
      then current_time -ℤ c.interval -ℤ c.offset
      else c.start_time

  -- `while (_trades.size() > 1 && _trades[1].time_stamp() <= _startTime) { _trades.pop_front(); }`,
  -- from the trade that is the front.
  unfoldable pub pop_stale :
      ℤ → TradeUpdate W → List (TradeUpdate W) → TradeUpdate W × List (TradeUpdate W)
  pop_stale start front [] = (front, [])
  pop_stale start front (t ∷ ts) =
      let rest = pop_stale start t ts in if leb_ℤ t.time_stamp start then rest else (front, t ∷ ts)

module _ {W : Type 0} ⦃d : Double W⦄ where
  -- The trade that fills the beginning of the window.
  unfoldable pub fill_front : ℤ → TradeUpdate W → TradeUpdate W
  fill_front start front =
      if ltb_ℤ front.time_stamp start
      then record { time_stamp = start; price = front.price; volume = zero_double }
      else front

  unfoldable pub update_values : MovingCandle W → ℤ → Option (MovingCandle W)
  unfolding move_start pop_stale fill_front
  update_values c current_time =
      let start = move_start c current_time in
      elim c.trades [
        | [] ↦ none
        | t ∷ ts ↦
            let (front, rest) = pop_stale start t ts in
            some (record c { start_time = start; trades = fill_front start front ∷ rest })
      ]

  unfoldable pub push_trade : MovingCandle W → TradeUpdate W → Option (MovingCandle W)
  unfolding update_values
  push_trade c t =
      let start = if eqb_ℤ c.start_time (pos 0) then t.time_stamp else c.start_time in
      update_values (record c { start_time = start; trades = c.trades ++ (t ∷ []) }) t.time_stamp

  -- The price of the last trade.
  abbrev pub last_price : W → List (TradeUpdate W) → W
  last_price p [] = p
  last_price p (t ∷ ts) = last_price t.price ts

  -- The candle of a window. The loop starts again at the first trade, whose price is the open.
  unfoldable pub window_ohlcv : ℤ → List (TradeUpdate W) → Option (OhlcvData W)
  window_ohlcv time [] = none
  window_ohlcv time (t ∷ ts) = some (record {
    time_stamp = time;
    opening = t.price;
    high = foldl (λ m u. max_double m u.price) t.price (t ∷ ts);
    low = foldl (λ m u. min_double m u.price) t.price (t ∷ ts);
    close = last_price t.price ts;
    volume = foldl (λ v u. d.add v u.volume) zero_double (t ∷ ts);
  })

  unfoldable pub get_moving_ohlcv : MovingCandle W → ℤ → Option (OhlcvData W × MovingCandle W)
  unfolding get_offset_trades update_values window_ohlcv
  get_moving_ohlcv c time = do
    c' ← update_values c time
    o ← window_ohlcv (c'.start_time -ℤ c'.offset) (get_offset_trades c')
    some (o, c')

  unfoldable pub get_quote_volume : MovingCandle W → ℤ → Option (W × MovingCandle W)
  unfolding get_offset_trades update_values
  get_quote_volume c time = do
    c' ← update_values c time
    some (
      foldl (λ v t. d.add v (calculate_cost t.price t.volume)) zero_double (get_offset_trades c'),
      c',
    )

  unfoldable pub reset : MovingCandle W → MovingCandle W
  reset c = record c { trades = []; start_time = pos 0 }
