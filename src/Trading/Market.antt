-- ===== src/Trading/Market.antt =====
-- trading/trade_update.h, ohlcv_data.h, order_book.h and .cpp. Times are whole seconds, and a
-- `std::time_t` is an integer without a bound.
use marketblocks.Prelude.{
  ℕ, ℤ, pos, negsuc, Bool, Option, none, some, List, [], ◌∷◌, length, ltb, ltb_ℤ, if◌then◌else◌,
}
use marketblocks.Double.{Double, zero_double}
use marketblocks.Trading.Constants.{TradeAction, sell, buy}

pub record TradeUpdate (W : Type 0) : Type 0 where
  pub time_stamp : ℤ
  pub price : W
  pub volume : W

pub record OhlcvData (W : Type 0) : Type 0 where
  pub time_stamp : ℤ
  pub opening : W
  pub high : W
  pub low : W
  pub close : W
  pub volume : W

pub data OrderBookSide : Type 0 where
  ask bid : OrderBookSide

pub record OrderBookEntry (W : Type 0) : Type 0 where
  pub price : W
  pub volume : W
  pub side : OrderBookSide

pub record OrderBookState (W : Type 0) : Type 0 where
  pub time_stamp : ℤ
  pub asks : List (OrderBookEntry W)
  pub bids : List (OrderBookEntry W)

module _ {W : Type 0} ⦃d : Double W⦄ where
  -- The default constructors.
  abbrev pub no_trade : TradeUpdate W
  no_trade = record { time_stamp = pos 0; price = zero_double; volume = zero_double }

  abbrev pub no_ohlcv : OhlcvData W
  no_ohlcv = record {
    time_stamp = negsuc 0;
    opening = zero_double;
    high = zero_double;
    low = zero_double;
    close = zero_double;
    volume = zero_double;
  }

module _ {W : Type 0} where
  -- `operator<` of candles
  unfoldable pub ohlcv_lt : OhlcvData W → OhlcvData W → Bool
  ohlcv_lt a b = ltb_ℤ a.time_stamp b.time_stamp

  -- `depth()`
  unfoldable pub depth : OrderBookState W → ℕ
  depth book =
      if ltb (length book.asks) (length book.bids) then length book.bids else length book.asks

  -- `none` is the read past the end of an empty vector, which the source only asserts against.
  unfoldable pub get_best_entry : List (OrderBookEntry W) → Option (OrderBookEntry W)
  get_best_entry [] = none
  get_best_entry (entry ∷ entries) = some entry

  unfoldable pub select_best_entry : OrderBookState W → TradeAction → Option (OrderBookEntry W)
  unfolding get_best_entry
  select_best_entry book buy = get_best_entry book.asks
  select_best_entry book sell = get_best_entry book.bids
