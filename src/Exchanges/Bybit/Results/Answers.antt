-- ===== src/Exchanges/Bybit/Results/Answers.antt =====
-- exchanges/bybit/bybit_results.cpp: the reader of each answer.
use marketblocks.Prelude.{Bytes, Option, List, [], bytes_equality, int_equality, Map}
use marketblocks.Double.{Double}
use marketblocks.Common.Text.{codes}
use marketblocks.Common.Retry.{Result}
use marketblocks.Common.Json.{
  value, ◌>>=◌, JsonLibrary, Numerals, get_string_of, stod_of, for_each, prepend_each, emplace_each,
  read_each,
}
use marketblocks.Trading.Constants.{trade_action_equality}
use marketblocks.Trading.Pair.{TradablePair, pair_equality}
use marketblocks.Trading.Market.{OhlcvData, OrderBookState}
use marketblocks.Trading.Order.{OrderDescription}
use marketblocks.Exchanges.Status.{ExchangeStatus, online}
use marketblocks.Exchanges.Bybit.Results.{
  read_result, read_result_void, read_pair, read_candle, read_book, read_balance,
  read_order_description, read_closed_order,
}

module _ (J : Type 0) ⦃l : JsonLibrary J⦄ where
  unfoldable pub read_system_status : Bytes → Option (Result ExchangeStatus)
  unfolding read_result
  read_system_status = read_result {J = J} (λ result. value online)

  unfoldable pub read_tradable_pairs : Bytes → Option (Result (List TradablePair))
  unfolding read_result read_pair read_each
  read_tradable_pairs =
      read_result {J = J} λ result. read_each (λ item. read_pair item.1) (l.items result)

  unfoldable pub read_add_order : Bytes → Option (Result Bytes)
  unfolding read_result
  read_add_order = read_result {J = J} (λ result. get_string_of result (codes "orderId"))

  unfoldable pub read_cancel_order : Bytes → Option (Result (Unit {0}))
  unfolding read_result_void
  read_cancel_order = read_result_void J

module _ (J : Type 0) {W : Type 0} ⦃l : JsonLibrary J⦄ ⦃n : Numerals J W⦄ where
  unfoldable pub read_ohlcv : Bytes → Option (Result (List (OhlcvData W)))
  unfolding read_result read_candle prepend_each
  read_ohlcv =
      read_result {J = J} λ result. prepend_each (λ item. read_candle item.1) (l.items result)

  unfoldable pub read_price : Bytes → Option (Result W)
  unfolding read_result
  read_price = read_result {J = J} (λ result. stod_of result (codes "price"))

  unfoldable pub read_order_book : Bytes → Option (Result (OrderBookState W))
  unfolding read_result read_book
  read_order_book = read_result {J = J} read_book

  unfoldable pub read_balances : Bytes → Option (Result (Map Bytes W))
  unfolding read_result read_balance emplace_each
  read_balances = read_result {J = J} λ result. do
    balances ← l.member result (codes "balances")
    emplace_each (λ item. read_balance item.1) (l.items balances)

module _ (J : Type 0) {W : Type 0} ⦃l : JsonLibrary J⦄ ⦃n : Numerals J W⦄ ⦃d : Double W⦄ where
  unfoldable pub read_open_orders : Bytes → Option (Result (List (OrderDescription W)))
  unfolding read_result read_order_description read_each
  read_open_orders =
      read_result {J = J}
        λ result. read_each (λ item. read_order_description item.1) (l.items result)

  unfoldable pub read_closed_orders : Bytes → Option (Result (List (OrderDescription W)))
  unfolding read_result read_closed_order for_each
  read_closed_orders =
      read_result {J = J} λ result. for_each (λ item. read_closed_order item.1) (l.items result) []
