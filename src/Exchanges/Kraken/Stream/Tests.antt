-- ===== src/Exchanges/Kraken/Stream/Tests.antt =====
-- A message of two trades, on a stream that keeps a trade of another pair.
use marketblocks.Prelude.{
  ℕ, ◌+◌, ◌*◌, pos, Bytes, some, [], ◌∷◌, ◌≡◌, refl, lookup, insert_or_assign, bytes_equality,
}
use marketblocks.Double.Fixed.{Fixed, fixed_double}
use marketblocks.Common.Text.{codes}
use marketblocks.Common.Run.{returns, run_each}
use marketblocks.Trading.Market.{TradeUpdate}
use marketblocks.Websockets.Handlers.{has_trade_update_handler, fire_trade_update, fire_handlers}
use marketblocks.Websockets.Live.{LiveStream, LiveWorld, LiveHandlers}
use marketblocks.Websockets.Live.Updates.{update_trade, put_trade}
use marketblocks.Exchanges.Documents.{Doc, text, number, library, numerals, array}
use marketblocks.Exchanges.Kraken.Stream.{from_end, read_trade}
use marketblocks.Exchanges.Kraken.Stream.Messages.{
  on_message, process_channel_message, process_trade_message,
}

abbrev trade_doc : Bytes → Bytes → Doc
trade_doc price time = array (text price ∷ text (codes "2") ∷ text time ∷ [])

abbrev message : Doc
message = array (
    number (pos 0)
    ∷ array (trade_doc (codes "7") (codes "100") ∷ trade_doc (codes "8") (codes "101") ∷ [])
    ∷ text (codes "trade")
    ∷ text (codes "ETH/USD")
    ∷ [])

abbrev trade_at_price : ℕ → ℕ → TradeUpdate Fixed
trade_at_price price time = record {
  time_stamp = pos time;
  price = pos (10_000 * price);
  volume = pos 20_000;
}

abbrev stream : LiveStream Fixed ℕ
stream = record {
  url = codes "wss";
  pair_separator = 47;
  trades = (codes "BTC/USD", trade_at_price 5 90) ∷ [];
  candles = [];
  order_books = [];
  pairs = (codes "ETH/USD", record { asset = codes "ETH"; price_unit = codes "USD" }) ∷ [];
  connection = some 0;
}

-- The program counts the trades that its handler is told of.
abbrev world : LiveWorld Fixed ℕ ℕ
world = record { stream = stream; program = 0 }

abbrev handlers : LiveHandlers Fixed ℕ ℕ
handlers = record {
  trade_update_handlers = (λ m w. returns tt (record w { program = w.program + 1 })) ∷ [];
  ohlcv_update_handlers = [];
  order_book_update_handlers = [];
}

abbrev world_after : LiveWorld Fixed ℕ ℕ
world_after = record {
  stream = record stream {
    trades = (codes "BTC/USD", trade_at_price 5 90) ∷ (codes "ETH/USD", trade_at_price 8 101) ∷ [];
  };
  program = 2;
}

on_message_run :
    on_message Doc ⦃l = library message⦄ ⦃n = numerals⦄ handlers (codes "[]") world
    ≡ returns tt world_after
unfolding on_message process_channel_message process_trade_message from_end read_trade run_each
    update_trade put_trade has_trade_update_handler fire_trade_update fire_handlers lookup
    insert_or_assign
on_message_run = refl
