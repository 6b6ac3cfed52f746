-- ===== src/Exchanges/Digifinex/Results/Answers.antt =====
-- exchanges/digifinex/digifinex_results.cpp: the reader of each answer.
use marketblocks.Prelude.{ℤ, Bytes, Option, List, [], bytes_equality, int_equality, Map}
use marketblocks.Common.Text.{codes}
use marketblocks.Common.Retry.{Result}
use marketblocks.Common.Json.{
  value, ◌>>=◌, JsonLibrary, Numerals, get_string_of, get_double_of, first_item, for_each,
  prepend_each, emplace_each, read_each, rounds_of,
}
use marketblocks.Trading.Constants.{trade_action_equality}
use marketblocks.Trading.Pair.{TradablePair, pair_equality}
use marketblocks.Trading.Market.{OhlcvData, OrderBookState}
use marketblocks.Trading.Order.{OrderDescription}
use marketblocks.Exchanges.Status.{ExchangeStatus, online}
use marketblocks.Exchanges.Digifinex.Results.{
  read_result, read_pair, read_order_description, read_candle, read_book, read_balance,
  read_closed_order,
}

module _ (J : Type 0) ⦃l : JsonLibrary J⦄ where
  unfoldable pub read_system_status : Bytes → Option (Result ExchangeStatus)
  unfolding read_result
  read_system_status = read_result {J = J} (λ json. value online)

  unfoldable pub read_tradable_pairs : Bytes → Option (Result (List TradablePair))
  unfolding read_result read_pair for_each
  read_tradable_pairs = read_result {J = J} λ json. do
    symbols ← l.member json (codes "symbol_list")
    for_each (λ item. read_pair item.1) (l.items symbols) []

  unfoldable pub read_add_order : Bytes → Option (Result Bytes)
  unfolding read_result
  read_add_order = read_result {J = J} (λ json. get_string_of json (codes "order_id"))

  unfoldable pub read_cancel_order : Bytes → Option (Result (Unit {0}))
  unfolding read_result
  read_cancel_order = read_result {J = J} (λ json. value _)

module _ (J : Type 0) {W : Type 0} ⦃l : JsonLibrary J⦄ ⦃n : Numerals J W⦄ where
  unfoldable pub read_ohlcv_data : Bytes → ℤ → Option (Result (List (OhlcvData W)))
  unfolding read_result read_candle rounds_of prepend_each
  read_ohlcv_data text count =
      read_result {J = J}
        (λ json. do
          element ← l.member json (codes "data")
          rounds ← rounds_of n.length_error (l.size element) count
          prepend_each (λ i. l.index element i >>= read_candle) rounds)
        text

  unfoldable pub read_price : Bytes → Option (Result W)
  unfolding read_result
  read_price = read_result {J = J} λ json. do
    tickers ← l.member json (codes "ticker")
    ticker ← first_item tickers
    get_double_of ticker (codes "last")

  unfoldable pub read_order_book : Bytes → Option (Result (OrderBookState W))
  unfolding read_result read_book
  read_order_book = read_result {J = J} read_book

  unfoldable pub read_balances : Bytes → Option (Result (Map Bytes W))
  unfolding read_result read_balance emplace_each
  read_balances = read_result {J = J} λ json. do
    balances ← l.member json (codes "list")
    emplace_each (λ item. read_balance item.1) (l.items balances)

  unfoldable pub read_open_orders : Bytes → Option (Result (List (OrderDescription W)))
  unfolding read_result read_order_description read_each
  read_open_orders = read_result {J = J} λ json. do
    orders ← l.member json (codes "data")
    read_each (λ item. read_order_description item.1) (l.items orders)

  unfoldable pub read_closed_orders : Bytes → Option (Result (List (OrderDescription W)))
  unfolding read_result read_closed_order for_each
  read_closed_orders = read_result {J = J} λ json. do
    orders ← l.member json (codes "data")
    for_each (λ item. read_closed_order item.1) (l.items orders) []
