-- ===== src/Websockets/Live/Updates.antt =====
-- exchanges/websockets/exchange_websocket_stream.cpp: what the messages of an exchange do to its
-- stream. A cache is written first; then the handlers are called, if there are any, on the stream as
-- it is by then.
use marketblocks.Prelude.{
  ℤ, pos, Bytes, Option, none, some, [], bytes_equality, lookup, insert_or_assign, if◌then◌else◌,
}
use marketblocks.Double.{Double, zero_double}
use marketblocks.Common.Run.{Run, returns, throws, out_of_range}
use marketblocks.Trading.Pair.{TradablePair}
use marketblocks.Trading.Market.{TradeUpdate, OhlcvData, OrderBookEntry, ask}
use marketblocks.Websockets.Constants.{OhlcvInterval}
use marketblocks.Websockets.BookCache.{OrderBookCache, update_cache}
use marketblocks.Websockets.Handlers.{
  has_trade_update_handler, has_ohlcv_update_handler, has_order_book_update_handler,
  fire_trade_update, fire_ohlcv_update, fire_order_book_update,
}
use marketblocks.Websockets.Live.{LiveStream, LiveWorld, LiveHandlers, create_ohlcv_sub_id}

module _ {W C : Type 0} where
  unfoldable pub put_trade : Bytes → TradeUpdate W → LiveStream W C → LiveStream W C
  put_trade name t l = record l { trades = insert_or_assign name t l.trades }

  unfoldable pub put_candle : Bytes → OhlcvInterval → OhlcvData W → LiveStream W C → LiveStream W C
  put_candle name interval o l = record l {
    candles = insert_or_assign (create_ohlcv_sub_id name interval) o l.candles;
  }

  unfoldable pub put_book : Bytes → OrderBookCache W → LiveStream W C → LiveStream W C
  put_book name cache l = record l { order_books = insert_or_assign name cache l.order_books }

module _ {W : Type 0} ⦃d : Double W⦄ where
  -- A book with one entry changed; where there is none, an empty one is made first.
  unfoldable pub changed_book : ℤ → OrderBookEntry W → Option (OrderBookCache W) → OrderBookCache W
  changed_book time entry none =
      update_cache time entry (record { last_update = pos 0; asks = []; bids = [] })
  changed_book time entry (some cache) = update_cache time entry cache

module _ {W C : Type 0} ⦃d : Double W⦄ where
  unfoldable pub change_book : Bytes → ℤ → OrderBookEntry W → LiveStream W C → LiveStream W C
  unfolding put_book
  change_book name time entry l =
      put_book name (changed_book time entry (lookup name l.order_books)) l

module _ {W C S : Type 0} where
  -- `_pairs.at(pairName)` for a message
  abbrev pub with_pair :
      Bytes
      → LiveWorld W C S
      → (TradablePair → Run (LiveWorld W C S) (Unit {0}))
      → Run (LiveWorld W C S) (Unit {0})
  with_pair name w fires = elim (lookup name w.stream.pairs) [
    | none ↦ throws out_of_range w
    | some pair ↦ fires pair
  ]

module _ {W C S : Type 0} ⦃d : Double W⦄ (handlers : LiveHandlers W C S) where
  unfoldable pub update_trade :
      Bytes → TradeUpdate W → LiveWorld W C S → Run (LiveWorld W C S) (Unit {0})
  update_trade name t w =
      let w' = record w { stream = put_trade name t w.stream } in
      if has_trade_update_handler handlers
      then with_pair name w'
          (λ pair. fire_trade_update handlers (record { pair = pair; trade = t }) w')
      else returns tt w'

  unfoldable pub update_ohlcv :
      Bytes → OhlcvInterval → OhlcvData W → LiveWorld W C S → Run (LiveWorld W C S) (Unit {0})
  update_ohlcv name interval o w =
      let w' = record w { stream = put_candle name interval o w.stream } in
      if has_ohlcv_update_handler handlers
      then with_pair name w' (λ pair.
        fire_ohlcv_update handlers (record { pair = pair; interval = interval; ohlcv = o }) w')
      else returns tt w'

  unfoldable pub initialise_order_book :
      Bytes → OrderBookCache W → LiveWorld W C S → Run (LiveWorld W C S) (Unit {0})
  initialise_order_book name cache w =
      let w' = record w { stream = put_book name cache w.stream } in
      let nothing : OrderBookEntry W = record {
        price = zero_double;
        volume = zero_double;
        side = ask;
      } in
      if has_order_book_update_handler handlers
      then with_pair name w'
          (λ pair. fire_order_book_update handlers (record { pair = pair; entry = nothing }) w')
      else returns tt w'

  unfoldable pub update_order_book :
      Bytes → ℤ → OrderBookEntry W → LiveWorld W C S → Run (LiveWorld W C S) (Unit {0})
  update_order_book name time entry w =
      let w' = record w { stream = change_book name time entry w.stream } in
      if has_order_book_update_handler handlers
      then with_pair name w'
          (λ pair. fire_order_book_update handlers (record { pair = pair; entry = entry }) w')
      else returns tt w'
