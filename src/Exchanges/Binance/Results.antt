-- ===== src/Exchanges/Binance/Results.antt =====
-- exchanges/binance/binance_results.cpp. A reader of an answer gives a result, or `none` where the
-- source leaves what it does undefined.
pub mod Answers
pub mod Success
pub mod Fills
use marketblocks.Prelude.{ℕ, ℤ, pos, Bytes, Bool, Option, ◌==◌, bytes_equality, ◌/ℤ◌, if◌then◌else◌}
use marketblocks.Common.Text.{codes}
use marketblocks.Common.Strings.{contains, c_string, int_to_string}
use marketblocks.Common.Retry.{Result, success, failure}
use marketblocks.Common.Json.{
  Read, value, raised, ◌>>=◌, catching, JsonLibrary, Numerals, get_long_of, get_string_of, stod_of,
  stod_at,
}
use marketblocks.Trading.Constants.{
  TradeAction, sell, buy, OrderStatus, opened, closed, partially_filled, cancelled, OrderType,
  market, limit, stop_loss, take_profit,
}
use marketblocks.Trading.Market.{OrderBookSide, OrderBookEntry}
use marketblocks.Trading.Order.{OrderDescription}

unfoldable pub to_trade_action : Bytes → TradeAction
to_trade_action action = if action == codes "BUY" then buy else sell

unfoldable pub to_order_type : Bytes → Read OrderType
to_order_type text =
    if text == codes "LIMIT"
    then value limit
    else if text == codes "MARKET"
    then value market
    else if contains (c_string text) (codes "STOP_LOSS")
    then value stop_loss
    else if contains (c_string text) (codes "TAKE_PROFIT")
    then value take_profit
    else raised (codes "Unknown order type")

unfoldable pub to_order_status : Bytes → OrderStatus
to_order_status status =
    if status == codes "NEW"
    then opened
    else if status == codes "PARTIALLY_FILLED"
    then partially_filled
    else if status == codes "FILLED"
    then closed
    else cancelled

module _ {J W : Type 0} ⦃l : JsonLibrary J⦄ ⦃n : Numerals J W⦄ where
  unfoldable pub read_order_book_entry : OrderBookSide → J → Read (OrderBookEntry W)
  read_order_book_entry side element = do
    price ← stod_at element 0
    volume ← stod_at element 1
    value (record { price = price; volume = volume; side = side })

  unfoldable pub read_order_description : J → Read (OrderDescription W)
  unfolding to_order_type to_trade_action
  read_order_description order = do
    time ← get_long_of order (codes "time")
    order_id ← get_long_of order (codes "orderId")
    type_text ← get_string_of order (codes "type")
    order_type ← to_order_type type_text
    symbol ← get_string_of order (codes "symbol")
    side ← get_string_of order (codes "side")
    price ← stod_of order (codes "price")
    quantity ← stod_of order (codes "origQty")
    value record {
      time_stamp = time /ℤ pos 1000;
      order_id = int_to_string order_id;
      order_type = order_type;
      pair_name = symbol;
      action = to_trade_action side;
      price = price;
      volume = quantity;
    }

module _ {J : Type 0} ⦃l : JsonLibrary J⦄ where
  -- What `read_result` does inside its `try`.
  unfoldable pub read_document : {T : Type 0} → (J → Read T) → J → Read (Result T)
  read_document reader json =
      if l.has_member json (codes "code")
      then get_string_of json (codes "msg") >>= (λ e. value (failure e))
      else (reader json >>= λ v. value (success v))

  unfoldable pub read_result : {T : Type 0} → (J → Read T) → Bytes → Option (Result T)
  unfolding catching read_document
  read_result reader text = catching (l.parse text >>= read_document reader)
