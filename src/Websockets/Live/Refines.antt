-- ===== src/Websockets/Live/Refines.antt =====
-- What the queries of a stream answer after a history, told by the abstract stream.
use marketblocks.Prelude.{ℕ, pos, Bool, Option, none, some, [], ◌≡◌, bytes_equality}
use marketblocks.Double.{Double}
use marketblocks.Trading.Pair.{TradablePair}
use marketblocks.Trading.Market.{OrderBookState, no_trade, no_ohlcv}
use marketblocks.Websockets.Constants.{OhlcvInterval}
use marketblocks.Websockets.Stream.{create_trade_sub, create_ohlcv_sub, create_order_book_sub}
use marketblocks.Websockets.BookCache.{OrderBookCache, snapshot}
use marketblocks.Websockets.Live.{
  LiveStream, create_ohlcv_sub_id, name_of, get_last_trade, get_last_candle, get_live_order_book,
  get_live_status, status_of,
}
use marketblocks.Websockets.Live.View.{LiveView, is_some}

module _ {A : Type 0} where
  abbrev pub or_else : A → Option A → A
  or_else a none = a
  or_else a (some b) = b

module _ {W : Type 0} where
  abbrev pub snapshot_of : ℕ → Option (OrderBookCache W) → OrderBookState W
  snapshot_of depth none = record { time_stamp = pos 0; asks = []; bids = [] }
  snapshot_of depth (some cache) = snapshot depth cache

  -- Nothing has come.
  abbrev pub empty_view : Bool → LiveView W
  empty_view connected = record {
    last_trade = λ name. none;
    last_candle = λ id. none;
    last_book = λ name. none;
    is_connected = connected;
  }

  -- What the queries about a pair answer, by the abstract stream.
  pub record Answers {C : Type 0} ⦃d : Double W⦄ (l : LiveStream W C) (v : LiveView W)
      (pair : TradablePair) (interval : OhlcvInterval) (depth : ℕ) : Type 0 where
    pub trade_answer : get_last_trade pair l ≡ or_else no_trade (v.last_trade (name_of l pair))
    pub candle_answer :
        get_last_candle pair interval l
        ≡ or_else no_ohlcv (v.last_candle (create_ohlcv_sub_id (name_of l pair) interval))
    pub book_answer :
        get_live_order_book pair depth l ≡ snapshot_of depth (v.last_book (name_of l pair))
    pub trade_status :
        get_live_status (create_trade_sub pair) l
        ≡ some (status_of (is_some (v.last_trade (name_of l pair))))
    pub candle_status :
        get_live_status (create_ohlcv_sub pair interval) l
        ≡ some (status_of (is_some (v.last_candle (create_ohlcv_sub_id (name_of l pair) interval))))
    pub book_status :
        get_live_status (create_order_book_sub pair) l
        ≡ some (status_of (is_some (v.last_book (name_of l pair))))
