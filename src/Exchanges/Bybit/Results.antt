-- ===== src/Exchanges/Bybit/Results.antt =====
-- exchanges/bybit/bybit_results.cpp. A reader of an answer gives a result, or `none` where the source
-- leaves what it does undefined. A `std::unordered_map` is visited in an order that is not specified;
-- here it is that of insertion.
pub mod Answers
use marketblocks.Prelude.{
  ℕ, zero, suc, ℤ, pos, negsuc, ◌+◌, ◌-◌, Bytes, Bool, true, ◌&&◌, Option, none, some, List, [],
  ◌∷◌, ◌++◌, length, get_elem?, ◌==◌, ltb_ℤ, eqb_ℤ, ltb, bytes_equality, int_equality, Map, lookup,
  emplace, ◌/ℤ◌, elem, if◌then◌else◌,
}
use marketblocks.Double.{Double, zero_double}
use marketblocks.Common.Text.{codes}
use marketblocks.Common.Strings.{contains, c_string, split, int_to_string}
use marketblocks.Common.Finance.{calculate_asset_price, calculate_volume}
use marketblocks.Common.Retry.{Result, success, failure}
use marketblocks.Common.Json.{
  Read, value, raised, unspecified, ◌>>=◌, defined, catching, JsonLibrary, Numerals, get_int_of,
  get_long_of, get_string_of, get_double_of, get_double_at, get_strings_of, get_long_at, stod_of,
  stod_at, first_item, for_each, prepend_each, emplace_each, read_each, range, rounds_of,
}
use marketblocks.Trading.Constants.{
  TradeAction, sell, buy, OrderType, market, limit, stop_loss, take_profit, trade_action_equality,
}
use marketblocks.Trading.Pair.{TradablePair, pair_equality}
use marketblocks.Trading.Market.{OhlcvData, ask, bid, OrderBookSide, OrderBookEntry, OrderBookState}
use marketblocks.Trading.Order.{OrderDescription}
use marketblocks.Exchanges.Status.{ExchangeStatus, online}
use marketblocks.Exchanges.Books.{read_sides}

unfoldable pub to_trade_action : Bytes → TradeAction
to_trade_action text = if text == codes "BUY" then buy else sell

module _ {J : Type 0} ⦃l : JsonLibrary J⦄ where
  -- What `read_result` does inside its `try`.
  unfoldable pub read_document : {T : Type 0} → (J → Read T) → J → Read (Result T)
  read_document reader json = get_int_of json (codes "ret_code") >>= λ code.
      if code == pos 0
      then l.member json (codes "result") >>= reader >>= (λ v. value (success v))
      else (get_string_of json (codes "ret_msg") >>= λ e. value (failure e))

  unfoldable pub read_result : {T : Type 0} → (J → Read T) → Bytes → Option (Result T)
  unfolding catching read_document
  read_result reader text = catching (l.parse text >>= read_document reader)

  -- `read_result<void>`, which does not look for "result".
  unfoldable pub read_document_void : J → Read (Result (Unit {0}))
  read_document_void json = get_int_of json (codes "ret_code") >>= λ code.
      if code == pos 0
      then value (success tt)
      else (get_string_of json (codes "ret_msg") >>= λ e. value (failure e))

  unfoldable pub read_pair : J → Read TradablePair
  read_pair element = do
    asset ← get_string_of element (codes "baseCurrency")
    price_unit ← get_string_of element (codes "quoteCurrency")
    value record { asset = asset; price_unit = price_unit }

module _ (J : Type 0) ⦃l : JsonLibrary J⦄ where
  unfoldable pub read_result_void : Bytes → Option (Result (Unit {0}))
  unfolding catching read_document_void
  read_result_void text = catching (l.parse text >>= read_document_void)

module _ {J W : Type 0} ⦃l : JsonLibrary J⦄ ⦃n : Numerals J W⦄ where
  unfoldable pub read_order_book_entry : OrderBookSide → J → Read (OrderBookEntry W)
  read_order_book_entry side element = do
    price ← stod_at element 0
    volume ← stod_at element 1
    value record { price = price; volume = volume; side = side }

  unfoldable pub read_candle : J → Read (OhlcvData W)
  read_candle element = do
    time ← get_long_at element 0
    opening ← stod_at element 1
    high ← stod_at element 2
    low ← stod_at element 3
    close ← stod_at element 4
    volume ← stod_at element 5
    value record {
      time_stamp = time /ℤ pos 1000;
      opening = opening;
      high = high;
      low = low;
      close = close;
      volume = volume;
    }

  unfoldable pub read_book : J → Read (OrderBookState W)
  unfolding read_sides read_order_book_entry
  read_book result = do
    asks ← l.member result (codes "asks")
    bids ← l.member result (codes "bids")
    sides ←
        read_sides (λ item. read_order_book_entry ask item.1)
          (λ item. read_order_book_entry bid item.1) (l.items asks) (l.items bids)
    time ← get_long_of result (codes "time")
    value record { time_stamp = time /ℤ pos 1000; asks = sides.0; bids = sides.1 }

  unfoldable pub read_balance : J → Read (Bytes × W)
  read_balance element = do
    asset ← get_string_of element (codes "coin")
    balance ← stod_of element (codes "free")
    value (asset, balance)

module _ {J W : Type 0} ⦃l : JsonLibrary J⦄ ⦃n : Numerals J W⦄ ⦃d : Double W⦄ where
  -- The quantity of a market order that buys is its cost. The type is read only where the order buys.
  unfoldable pub read_quantity : J → TradeAction → W → W → Read W
  unfolding calculate_volume
  read_quantity order sell price qty = value qty
  read_quantity order buy price qty = do
    type_text ← get_string_of order (codes "type")
    value (if type_text == codes "MARKET" then calculate_volume price qty else qty)

  unfoldable pub read_order_description : J → Read (OrderDescription W)
  unfolding to_trade_action read_quantity
  read_order_description order = do
    side ← get_string_of order (codes "side")
    price ← stod_of order (codes "price")
    original ← stod_of order (codes "origQty")
    let action = to_trade_action side
    quantity ← read_quantity order action price original
    time_text ← get_string_of order (codes "time")
    time ← n.stoll time_text
    order_id ← get_string_of order (codes "orderId")
    type_text ← get_string_of order (codes "type")
    symbol ← get_string_of order (codes "symbol")
    value record {
      time_stamp = time /ℤ pos 1000;
      order_id = order_id;
      order_type = if type_text == codes "LIMIT" then limit else market;
      pair_name = symbol;
      action = action;
      price = price;
      volume = quantity;
    }

  -- An order that is not filled is left out.
  unfoldable pub read_closed_order :
      J → List (OrderDescription W) → Read (List (OrderDescription W))
  unfolding read_order_description
  read_closed_order order orders = get_string_of order (codes "status") >>= λ status.
      if status == codes "FILLED"
      then read_order_description order >>= (λ description. value (orders ++ description ∷ []))
      else value orders
