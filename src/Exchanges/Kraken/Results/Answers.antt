-- ===== src/Exchanges/Kraken/Results/Answers.antt =====
-- exchanges/kraken/kraken_results.cpp: the reader of each answer.
use marketblocks.Prelude.{ℤ, Bytes, Option, List, [], get_elem?, bytes_equality, Map}
use marketblocks.Common.Text.{codes}
use marketblocks.Common.Retry.{Result}
use marketblocks.Common.Json.{
  value, ◌>>=◌, defined, JsonLibrary, Numerals, get_string_of, get_strings_of, stod_of, first_item,
  for_each, emplace_each, read_each, rounds_of,
}
use marketblocks.Trading.Pair.{TradablePair}
use marketblocks.Trading.Market.{OhlcvData, OrderBookState}
use marketblocks.Trading.Order.{OrderDescription}
use marketblocks.Exchanges.Status.{ExchangeStatus}
-- The first of the messages, where there is one.
use marketblocks.Exchanges.Kraken.Results.{
  to_status, read_result, read_result_void, read_pair, read_ticker_price, read_order_of_status,
  read_candle_back, read_book, read_symbol_price, read_balance,
}

module _ (J : Type 0) ⦃l : JsonLibrary J⦄ where
  unfoldable pub read_add_order : Bytes → Option (Result Bytes)
  unfolding read_result
  read_add_order =
      read_result {J = J}
        λ result. do ids ← get_strings_of result (codes "txid"); defined (get_elem? ids 0)

  unfoldable pub read_cancel_order : Bytes → Option (Result (Unit {0}))
  unfolding read_result_void
  read_cancel_order = read_result_void J

  unfoldable pub read_system_status : Bytes → Option (Result ExchangeStatus)
  unfolding read_result to_status
  read_system_status =
      read_result {J = J}
        λ result. do status ← get_string_of result (codes "status"); value (to_status status)

  unfoldable pub read_tradable_pairs : Bytes → Option (Result (List TradablePair))
  unfolding read_result read_pair read_each
  read_tradable_pairs =
      read_result {J = J} λ result. read_each (λ item. read_pair item.1) (l.items result)

module _ (J : Type 0) {W : Type 0} ⦃l : JsonLibrary J⦄ ⦃n : Numerals J W⦄ where
  unfoldable pub read_ohlcv_data : Bytes → ℤ → Option (Result (List (OhlcvData W)))
  unfolding read_result read_candle_back rounds_of read_each
  read_ohlcv_data text count =
      read_result {J = J}
        (λ result. do
          element ← first_item result
          rounds ← rounds_of n.length_error (l.size element) count
          read_each (read_candle_back element) rounds)
        text

  unfoldable pub read_price : Bytes → Option (Result W)
  unfolding read_result read_ticker_price
  read_price =
      read_result {J = J} λ result. do element ← first_item result; read_ticker_price element

  unfoldable pub read_prices : Bytes → Option (Result (Map Bytes W))
  unfolding read_result read_symbol_price emplace_each
  read_prices = read_result {J = J} λ result. emplace_each read_symbol_price (l.items result)

  unfoldable pub read_order_book : Bytes → Option (Result (OrderBookState W))
  unfolding read_result read_book
  read_order_book = read_result {J = J} λ result. do element ← first_item result; read_book element

  unfoldable pub read_balances : Bytes → Option (Result (Map Bytes W))
  unfolding read_result read_balance emplace_each
  read_balances = read_result {J = J} λ result. emplace_each read_balance (l.items result)

  unfoldable pub read_fee : Bytes → Option (Result W)
  unfolding read_result
  read_fee = read_result {J = J} λ result. do
    fees ← l.member result (codes "fees")
    element ← first_item fees
    stod_of element (codes "fee")

  unfoldable pub read_open_closed_orders :
      Bytes → Bytes → Option (Result (List (OrderDescription W)))
  unfolding read_result read_order_of_status for_each
  read_open_closed_orders text order_status =
      read_result {J = J}
        (λ result. do
          orders ← l.member result order_status
          for_each (read_order_of_status order_status) (l.items orders) [])
        text

  unfoldable pub read_open_orders : Bytes → Option (Result (List (OrderDescription W)))
  unfolding read_open_closed_orders
  read_open_orders text = read_open_closed_orders text (codes "open")

  unfoldable pub read_closed_orders : Bytes → Option (Result (List (OrderDescription W)))
  unfolding read_open_closed_orders
  read_closed_orders text = read_open_closed_orders text (codes "closed")
