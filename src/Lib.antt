-- ===== src/Lib.antt =====
-- marketblocks, a C++ library for automated trading strategies: paper trading, candles and the data
-- that they work on.
--
-- A strategy talks to an exchange through a market API, a trade API and a websocket stream. In a
-- test, `paper_trade_api` stands in for the trade API: it keeps balances and open orders, and fills
-- an order when the last trade that the stream reports allows it, at once in `add_order` or later in
-- `trade_update_handler`, which the stream calls after each trade.
--
-- Which file models which part (paths from the repository's root):
--   Prelude       Booleans, numbers, integers, lists and association lists; no code of its own.
--   Double        the operations on `double`, an interface record; theorems that need the order of
--                 doubles take `IsOrdered`. Double.Fixed is an instance on which the tests run.
--   Common        Run: what a call returns or throws, with the object after it. Text:
--                 `std::to_string`. Finance: src/common/utils/financeutils.h. Math:
--                 src/common/utils/mathutils.cpp. SetQueue: src/common/types/set_queue.h. Retry:
--                 src/common/utils/retry.h. Strings: src/common/utils/stringutils.cpp. Json:
--                 src/common/json.
--   Trading       src/trading: orders, pairs, books, trades and candles; FromTrades is
--                 `ohlcv_from_trades` and MovingCandle is `moving_candle`;
--                 FeeSchedule is `fee_schedule::get_fee`.
--   Websockets    src/exchanges/websockets: constants, subscriptions and the interface of a stream;
--                 BookCache is `order_book_cache`, Handlers the handlers of `websocket_stream`,
--                 Live is `exchange_websocket_stream`: Live.Updates is what the messages of an
--                 exchange change, Live.View and Live.Steps the stream without its maps.
--   Exchanges     src/exchanges: how the answers of an exchange are read. Binance, Kraken, Coinbase,
--                 Bybit and Digifinex are the `*_results.cpp`: Results has `read_result` and the
--                 readers of parts, Results.Answers one reader for each kind of answer. Books is the
--                 loop over both sides of an order book that three of them share. Kraken.Stream is
--                 `kraken_websocket_stream`, on top of Websockets.Live, and Kraken.Api is
--                 `kraken_api`, on top of Requests, the functions of src/exchanges/exchange_common.h.
--   Networking    src/networking: addresses, and requests with their answers.
--   PaperTrading  src/testing/paper_trading/paper_trade_api.cpp. State has the fields, the
--                 constructor and the queries; Settle is `execute_order`; Fill is `try_fill_order`
--                 with the free functions that it calls; Handler is `trade_update_handler`; Api is
--                 `add_order`, `add_order_confirm` and `cancel_order`. Books, Settle.Balances and
--                 Fill.Attempt hold the proofs.
--   BackTesting   src/testing/back_testing/back_testing_data.cpp, historical candles as a market.
--                 Cursor is `get_iterator` with its cache, Data the class with `get_trade` and
--                 `get_order_book`, Candles is `get_ohlcv`; History is a list of queries and steps
--                 of time on one object. Stream is backtest_websocket_stream.cpp, whose answers
--                 on subscriptions Stream.Statuses tells.
--
-- State is passed explicitly. A method that can throw returns `Run`, which keeps the object as it
-- was when the exception left, since C++ undoes nothing; a step that C++ leaves undefined, as a read
-- past the end of a vector, is the value `undefined`. The clock is an argument of the calls that
-- read it. `unsigned long long` volumes are numbers with their wrap-around at 2^64 written out;
-- `std::time_t` and the order counter are integers without a bound. The conversion of a double to
-- such a volume, undefined in C++ out of range, is a total operation of the doubles; the data source
-- of a back test, which may throw, is a function. Unordered maps are association
-- lists, and no theorem depends on the order of their entries. The loop of `trade_update_handler` is
-- counted before it starts, in the source as here, so that no fuel is chosen.
--
-- A reader of an answer is over an interface of the JSON library, whose reads have a value, throw, or
-- are undefined; `catch` makes a failure of what is thrown, and a reader that is undefined gives `none`.
-- A live stream is over an interface of connections.
--
-- Not modelled: the HTTP, websocket and file layers, which call libraries; the requests of the other
-- exchanges; the runner, the loading of test data and reporting; locks: a call of a modelled class that
-- has one is a step of its own, and a live stream holds one for each access to a cache.
pub mod Prelude
pub mod Double
pub mod Common
pub mod Trading
pub mod Websockets
pub mod Networking
pub mod Exchanges
pub mod PaperTrading
pub mod BackTesting
