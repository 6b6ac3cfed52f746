-- ===== src/Websockets/Live.antt =====
-- exchanges/websockets/exchange_websocket_stream.h and .cpp: `class exchange_websocket_stream`, what
-- the streams of all exchanges share. The locks of its caches, each held for one access, and the log
-- are left out. The connection is a parameter, since networking/ wraps a library.
pub mod Updates
pub mod View
pub mod Steps
pub mod Refines
pub mod Passive
pub mod Updated
pub mod Traded
pub mod Tests
use marketblocks.Prelude.{
  ℕ, ℤ, pos, Bytes, Bool, true, false, Option, none, some, List, [], ◌∷◌, ◌++◌, foldl,
  bytes_equality, Map, lookup, lookup_or, contains_key, insert_or_assign, emplace, erase,
  if◌then◌else◌,
}
use marketblocks.Double.{Double, zero_double}
use marketblocks.Common.Run.{
  Run, returns, throws, undefined, and_then, out_of_range, could_not_connect, bad_variant_access,
}
use marketblocks.Trading.Pair.{TradablePair, pair_to_string_with}
use marketblocks.Trading.Market.{
  TradeUpdate, OhlcvData, OrderBookEntry, OrderBookState, ask, no_trade, no_ohlcv,
}
use marketblocks.Websockets.Constants.{
  WebsocketChannel, order_book, trade, ohlcv, OhlcvInterval, SubscriptionStatus, unsubscribed,
  subscribed, interval_to_string,
}
use marketblocks.Websockets.Stream.{Subscription}
use marketblocks.Websockets.BookCache.{OrderBookCache, update_cache, snapshot}
use marketblocks.Websockets.Messages.{
  TradeUpdateMessage, OhlcvUpdateMessage, OrderBookUpdateMessage,
}
use marketblocks.Websockets.Handlers.{
  StreamHandlers, has_trade_update_handler, has_ohlcv_update_handler, has_order_book_update_handler,
  fire_trade_update, fire_ohlcv_update, fire_order_book_update,
}

pub data WsConnectionStatus : Type 0 where
  connection_closed connection_open : WsConnectionStatus

-- What the code uses of a `websocket_connection` and of its factory, whose `create_connection` may
-- throw (`none`).
pub record Connections (C : Type 0) : Type 0 where
  pub create_connection : Bytes → Option C
  pub close : C → C
  pub status : C → WsConnectionStatus

pub record LiveStream (W C : Type 0) : Type 0 where
  pub url : Bytes
  pub pair_separator : ℕ
  pub trades : Map Bytes (TradeUpdate W)
  pub candles : Map Bytes (OhlcvData W)
  pub order_books : Map Bytes (OrderBookCache W)
  pub pairs : Map Bytes TradablePair
  pub connection : Option C

-- The stream with the state of the program that its handlers belong to.
pub record LiveWorld (W C S : Type 0) : Type 0 where
  pub stream : LiveStream W C
  pub program : S

abbrev pub LiveHandlers : Type 0 → Type 0 → Type 0 → Type 0
LiveHandlers W C S =
    StreamHandlers (LiveWorld W C S) (TradeUpdateMessage W) (OhlcvUpdateMessage W)
      (OrderBookUpdateMessage W)

unfoldable pub create_ohlcv_sub_id : Bytes → OhlcvInterval → Bytes
create_ohlcv_sub_id pair_name interval = pair_name ++ interval_to_string interval

abbrev pub status_of : Bool → SubscriptionStatus
status_of true = subscribed
status_of false = unsubscribed

module _ {P : Type 0} where
  -- `none` is `std::bad_variant_access`.
  abbrev pub get_ohlcv_interval : Subscription P → Option OhlcvInterval
  get_ohlcv_interval s = s.parameter

module _ {W C : Type 0} where
  unfoldable pub new_live_stream : Bytes → ℕ → LiveStream W C
  new_live_stream url pair_separator = record {
    url = url;
    pair_separator = pair_separator;
    trades = [];
    candles = [];
    order_books = [];
    pairs = [];
    connection = none;
  }

  unfoldable pub clear_subscriptions : LiveStream W C → LiveStream W C
  clear_subscriptions l = record l { trades = []; candles = []; order_books = [] }

  unfoldable pub name_of : LiveStream W C → TradablePair → Bytes
  name_of l pair = pair_to_string_with pair l.pair_separator

  -- What `subscribe` does before it sends the subscription.
  unfoldable pub add_pairs : List TradablePair → LiveStream W C → LiveStream W C
  add_pairs [] l = l
  add_pairs (pair ∷ pairs) l =
      add_pairs pairs (record l { pairs = emplace (name_of l pair) pair l.pairs })

  unfoldable pub set_unsubscribed :
      Subscription Bytes → LiveStream W C → Run (LiveStream W C) (Unit {0})
  set_unsubscribed s l = elim s.channel [
    | trade ↦ returns tt (record l { trades = erase s.pair_item l.trades })
    | ohlcv ↦ elim (get_ohlcv_interval s) [
      | none ↦ throws bad_variant_access l
      | some interval ↦
          returns tt
            (record l { candles = erase (create_ohlcv_sub_id s.pair_item interval) l.candles })
    ]
    | order_book ↦ returns tt (record l { order_books = erase s.pair_item l.order_books })
  ]

  -- `none` is `std::bad_variant_access`, for a candle subscription without an interval.
  unfoldable pub get_live_status :
      Subscription TradablePair → LiveStream W C → Option SubscriptionStatus
  get_live_status s l =
      let name = name_of l s.pair_item in
      elim s.channel [
        | trade ↦ some (status_of (contains_key name l.trades))
        | ohlcv ↦ elim (get_ohlcv_interval s) [
          | none ↦ none
          | some interval ↦
              some (status_of (contains_key (create_ohlcv_sub_id name interval) l.candles))
        ]
        | order_book ↦ some (status_of (contains_key name l.order_books))
      ]

  unfoldable pub get_live_order_book : TradablePair → ℕ → LiveStream W C → OrderBookState W
  get_live_order_book pair depth l = elim (lookup (name_of l pair) l.order_books) [
    | none ↦ record { time_stamp = pos 0; asks = []; bids = [] }
    | some cache ↦ snapshot depth cache
  ]

module _ {W C : Type 0} ⦃d : Double W⦄ where
  unfoldable pub get_last_trade : TradablePair → LiveStream W C → TradeUpdate W
  get_last_trade pair l = lookup_or (name_of l pair) no_trade l.trades

  unfoldable pub get_last_candle : TradablePair → OhlcvInterval → LiveStream W C → OhlcvData W
  get_last_candle pair interval l =
      lookup_or (create_ohlcv_sub_id (name_of l pair) interval) no_ohlcv l.candles

module _ {W C : Type 0} (connections : Connections C) where
  -- Closing a connection that is not there is undefined.
  unfoldable pub disconnect : LiveStream W C → Run (LiveStream W C) (Unit {0})
  unfolding clear_subscriptions
  disconnect l = elim l.connection [
    | none ↦ undefined
    | some c ↦
        returns tt (clear_subscriptions (record l { connection = some (connections.close c) }))
  ]

  abbrev connect : LiveStream W C → Run (LiveStream W C) (Unit {0})
  connect l = elim (connections.create_connection l.url) [
    | none ↦ throws could_not_connect l
    | some c ↦ returns tt (record l { connection = some c })
  ]

  unfoldable pub reset : LiveStream W C → Run (LiveStream W C) (Unit {0})
  unfolding disconnect
  reset l = elim l.connection [
    | none ↦ connect l
    | some c ↦ and_then (disconnect l) λ u l'. connect l'
  ]

  unfoldable pub connection_status : LiveStream W C → WsConnectionStatus
  connection_status l = elim l.connection [
    | none ↦ connection_closed
    | some c ↦ connections.status c
  ]

  -- `send_subscribe` and `send_unsubscribe`, which the streams of the exchanges define.
  module _
      (send : Subscription (List TradablePair)
        → LiveStream W C
        → Run (LiveStream W C) (Unit {0})) where
    unfoldable pub subscribe :
        Subscription (List TradablePair) → LiveStream W C → Run (LiveStream W C) (Unit {0})
    unfolding add_pairs
    subscribe s l = send s (add_pairs s.pair_item l)

    unfoldable pub unsubscribe :
        Subscription (List TradablePair) → LiveStream W C → Run (LiveStream W C) (Unit {0})
    unsubscribe s l = send s l
