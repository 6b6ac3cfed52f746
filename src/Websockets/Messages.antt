-- ===== src/Websockets/Messages.antt =====
-- exchanges/websockets/websocket_update_messages.h.
use marketblocks.Trading.Pair.{TradablePair}
use marketblocks.Trading.Market.{TradeUpdate, OhlcvData, OrderBookEntry}
use marketblocks.Websockets.Constants.{OhlcvInterval}

pub record TradeUpdateMessage (W : Type 0) : Type 0 where
  pub pair : TradablePair
  pub trade : TradeUpdate W

pub record OhlcvUpdateMessage (W : Type 0) : Type 0 where
  pub pair : TradablePair
  pub interval : OhlcvInterval
  pub ohlcv : OhlcvData W

pub record OrderBookUpdateMessage (W : Type 0) : Type 0 where
  pub pair : TradablePair
  pub entry : OrderBookEntry W
