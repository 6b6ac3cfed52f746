-- ===== src/Websockets/Live/Tests.antt =====
-- A stream that a trade reaches, which is disconnected; then a candle and a book come.
use marketblocks.Prelude.{ℕ, pos, none, some, List, [], ◌∷◌}
use marketblocks.Double.Fixed.{Fixed, fixed_double}
use marketblocks.Common.Text.{codes}
use marketblocks.Trading.Pair.{TradablePair}
use marketblocks.Trading.Market.{ask}
use marketblocks.Websockets.Constants.{m5, trade}
use marketblocks.Websockets.Live.{Connections, connection_open}
use marketblocks.Websockets.Live.View.{trade_came, candle_came, entry_came, unsubscribes}
use marketblocks.Websockets.Live.Steps.{LiveStep, event, disconnects}

-- A connection is the number of times that it has been closed.
abbrev connections : Connections ℕ
connections = record {
  create_connection = λ url. some 0;
  close = λ c. 1;
  status = λ c. connection_open;
}

abbrev pair : TradablePair
pair = record { asset = codes "BTC"; price_unit = codes "USD" }

abbrev events : List (LiveStep Fixed)
events =
    event (
      trade_came (codes "BTC/USD")
        (record { time_stamp = pos 3; price = pos 20_000; volume = pos 10_000 }))
    ∷ disconnects
    ∷ event (
        candle_came (codes "BTC/USD") m5 (record {
          time_stamp = pos 0;
          opening = pos 1;
          high = pos 2;
          low = pos 1;
          close = pos 1;
          volume = pos 4;
        }))
    ∷ event (
        entry_came (codes "BTC/USD") (pos 4)
          (record { price = pos 30_000; volume = pos 10_000; side = ask }))
    ∷ event
        (unsubscribes (record { channel = trade; pair_item = codes "BTC/USD"; parameter = none }))
    ∷ []
