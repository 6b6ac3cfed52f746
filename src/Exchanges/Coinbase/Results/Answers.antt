-- ===== src/Exchanges/Coinbase/Results/Answers.antt =====
-- exchanges/coinbase/coinbase_results.cpp: the reader of each answer.
use marketblocks.Prelude.{ℤ, pos, Bytes, Option, List, bytes_equality, int_equality, Map}
use marketblocks.Double.{Double}
use marketblocks.Common.Text.{codes}
use marketblocks.Common.Retry.{Result}
use marketblocks.Common.Json.{
  value, ◌>>=◌, JsonLibrary, Numerals, get_string_of, stod_of, emplace_each, read_each, rounds_of,
}
use marketblocks.Trading.Constants.{trade_action_equality}
use marketblocks.Trading.Pair.{TradablePair, pair_equality}
use marketblocks.Trading.Market.{OhlcvData, OrderBookState}
use marketblocks.Trading.Order.{OrderDescription}
use marketblocks.Exchanges.Coinbase.Results.{
  read_result, read_pair, read_candle, read_book, read_balance, read_order,
}

module _ (J : Type 0) ⦃l : JsonLibrary J⦄ where
  unfoldable pub read_tradable_pairs : Bytes → Option (Result (List TradablePair))
  unfolding read_result read_pair read_each
  read_tradable_pairs =
      read_result {J = J} λ json. read_each (λ item. read_pair item.1) (l.items json)

  unfoldable pub read_add_order : Bytes → Option (Result Bytes)
  unfolding read_result
  read_add_order = read_result {J = J} (λ json. get_string_of json (codes "id"))

  unfoldable pub read_cancel_order : Bytes → Option (Result (Unit {0}))
  unfolding read_result
  read_cancel_order = read_result {J = J} (λ json. value _)

module _ (J : Type 0) {W : Type 0} ⦃l : JsonLibrary J⦄ ⦃n : Numerals J W⦄ where
  unfoldable pub read_ohlcv_data : Bytes → ℤ → Option (Result (List (OhlcvData W)))
  unfolding read_result read_candle rounds_of read_each
  read_ohlcv_data text count =
      read_result {J = J}
        (λ json. do
          rounds ← rounds_of n.length_error (l.size json) count
          read_each (λ i. l.index json i >>= read_candle) rounds)
        text

  unfoldable pub read_price : Bytes → Option (Result W)
  unfolding read_result
  read_price = read_result {J = J} (λ json. stod_of json (codes "price"))

  unfoldable pub read_order_book : Bytes → ℤ → Option (Result (OrderBookState W))
  unfolding read_result read_book
  read_order_book text depth = read_result {J = J} (read_book depth) text

  unfoldable pub read_balances : Bytes → Option (Result (Map Bytes W))
  unfolding read_result read_balance emplace_each
  read_balances =
      read_result {J = J} λ json. emplace_each (λ item. read_balance item.1) (l.items json)

module _ (J : Type 0) {W : Type 0} ⦃l : JsonLibrary J⦄ ⦃n : Numerals J W⦄ ⦃d : Double W⦄ where
  unfoldable pub read_fee : Bytes → Option (Result W)
  unfolding read_result
  read_fee = read_result {J = J} λ json. do
    rate ← stod_of json (codes "taker_fee_rate")
    value (d.mul rate (d.literal (pos 100) 0))

  unfoldable pub read_orders : Bytes → Option (Result (List (OrderDescription W)))
  unfolding read_result read_order read_each
  read_orders = read_result {J = J} λ json. read_each (λ item. read_order item.1) (l.items json)
