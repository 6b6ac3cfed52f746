-- ===== src/Websockets/Stream.antt =====
-- exchanges/websockets/websocket_subscription.h, and of websocket_stream.h the part of the abstract
-- class `websocket_stream` that the paper trader calls.
use marketblocks.Prelude.{List, Option, none, some}
use marketblocks.Common.Run.{Exception}
use marketblocks.Trading.Pair.{TradablePair}
use marketblocks.Trading.Market.{TradeUpdate}
use marketblocks.Websockets.Constants.{
  WebsocketChannel, order_book, trade, ohlcv, OhlcvInterval, SubscriptionStatus,
}

-- `basic_websocket_subscription`; `none` is `std::monostate`.
pub record Subscription (P : Type 0) : Type 0 where
  pub channel : WebsocketChannel
  pub pair_item : P
  pub parameter : Option OhlcvInterval

module _ {P : Type 0} where
  unfoldable pub create_trade_sub : P → Subscription P
  create_trade_sub p = record { channel = trade; pair_item = p; parameter = none }

  unfoldable pub create_order_book_sub : P → Subscription P
  create_order_book_sub p = record { channel = order_book; pair_item = p; parameter = none }

  unfoldable pub create_ohlcv_sub : P → OhlcvInterval → Subscription P
  create_ohlcv_sub p i = record { channel = ohlcv; pair_item = p; parameter = some i }

-- A stream with state `S`; the methods that the class declares `const` leave it alone.
pub record WebsocketStream (S W : Type 0) : Type 0 where
  pub get_last_trade : S → TradablePair → TradeUpdate W
  pub get_subscription_status : S → Subscription TradablePair → SubscriptionStatus
  -- The stream after the call, and what the call has thrown, if anything.
  pub subscribe : S → Subscription (List TradablePair) → S × Option Exception
