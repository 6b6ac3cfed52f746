-- ===== src/Exchanges/Digifinex/Results.antt =====
-- exchanges/digifinex/digifinex_results.cpp. A reader of an answer gives a result, or `none` where the
-- source leaves what it does undefined. A `std::unordered_map` or set is visited in an order that is not
-- specified; here it is that of insertion.
pub mod Answers
use marketblocks.Prelude.{
  ℕ, zero, suc, ℤ, pos, negsuc, ◌+◌, ◌-◌, Bytes, Bool, true, ◌&&◌, Option, none, some, List, [],
  ◌∷◌, ◌++◌, length, get_elem?, ◌==◌, ltb_ℤ, eqb_ℤ, ltb, bytes_equality, int_equality, Map, lookup,
  emplace, ◌/ℤ◌, elem, if◌then◌else◌,
}
use marketblocks.Double.{Double, zero_double}
use marketblocks.Common.Text.{codes}
use marketblocks.Common.Strings.{contains, c_string, split, int_to_string}
use marketblocks.Common.Finance.{calculate_asset_price, calculate_volume}
use marketblocks.Common.Retry.{Result, success, failure}
use marketblocks.Common.Json.{
  Read, value, raised, unspecified, ◌>>=◌, defined, catching, JsonLibrary, Numerals, get_int_of,
  get_long_of, get_string_of, get_double_of, get_double_at, get_strings_of, get_long_at, stod_of,
  stod_at, first_item, for_each, prepend_each, emplace_each, read_each, range, rounds_of,
}
use marketblocks.Trading.Constants.{
  TradeAction, sell, buy, OrderType, market, limit, stop_loss, take_profit, trade_action_equality,
}
use marketblocks.Trading.Pair.{TradablePair, pair_equality}
use marketblocks.Trading.Market.{OhlcvData, ask, bid, OrderBookSide, OrderBookEntry, OrderBookState}
use marketblocks.Trading.Order.{OrderDescription}
use marketblocks.Exchanges.Status.{ExchangeStatus, online}
use marketblocks.Exchanges.Books.{read_sides}
use marketblocks.Exchanges.Digifinex.Messages.{get_error_message}

module _ {J : Type 0} ⦃l : JsonLibrary J⦄ where
  -- What `read_result` does inside its `try`.
  unfoldable pub read_document : {T : Type 0} → (J → Read T) → J → Read (Result T)
  unfolding get_error_message
  read_document reader json = get_int_of json (codes "code") >>= λ code.
      if code == pos 0
      then (reader json >>= λ v. value (success v))
      else value (failure (get_error_message code))

  unfoldable pub read_result : {T : Type 0} → (J → Read T) → Bytes → Option (Result T)
  unfolding catching read_document
  read_result reader text = catching (l.parse text >>= read_document reader)

  -- `emplace` of a set: a pair that is there stays.
  unfoldable pub read_pair : J → List TradablePair → Read (List TradablePair)
  read_pair element pairs = do
    asset ← get_string_of element (codes "base_asset")
    price_unit ← get_string_of element (codes "quote_asset")
    let pair : TradablePair = record { asset = asset; price_unit = price_unit }
    value (if elem pair pairs then pairs else pairs ++ pair ∷ [])

module _ {J W : Type 0} ⦃l : JsonLibrary J⦄ ⦃n : Numerals J W⦄ where
  unfoldable pub read_order_description : J → Read (OrderDescription W)
  unfolding contains
  read_order_description order = do
    type_text ← get_string_of order (codes "type")
    time ← get_long_of order (codes "created_date")
    order_id ← get_string_of order (codes "order_id")
    symbol ← get_string_of order (codes "symbol")
    price ← get_double_of order (codes "price")
    amount ← get_double_of order (codes "amount")
    value record {
      time_stamp = time;
      order_id = order_id;
      order_type = if contains type_text (codes "market") then market else limit;
      pair_name = symbol;
      action = if contains type_text (codes "buy") then buy else sell;
      price = price;
      volume = amount;
    }

  unfoldable pub read_order_book_entry : OrderBookSide → J → Read (OrderBookEntry W)
  read_order_book_entry side element = do
    price ← get_double_at element 0
    volume ← get_double_at element 1
    value record { price = price; volume = volume; side = side }

  unfoldable pub read_candle : J → Read (OhlcvData W)
  read_candle element = do
    time ← get_long_at element 0
    opening ← get_double_at element 5
    high ← get_double_at element 3
    low ← get_double_at element 4
    close ← get_double_at element 2
    volume ← get_double_at element 1
    value record {
      time_stamp = time;
      opening = opening;
      high = high;
      low = low;
      close = close;
      volume = volume;
    }

  unfoldable pub read_book : J → Read (OrderBookState W)
  unfolding read_sides read_order_book_entry
  read_book json = do
    bids ← l.member json (codes "bids")
    asks ← l.member json (codes "asks")
    sides ←
        read_sides (λ item. read_order_book_entry ask item.1)
          (λ item. read_order_book_entry bid item.1) (l.items asks) (l.items bids)
    time ← get_long_of json (codes "date")
    value record { time_stamp = time; asks = sides.0; bids = sides.1 }

  unfoldable pub read_balance : J → Read (Bytes × W)
  read_balance element = do
    asset ← get_string_of element (codes "currency")
    balance ← get_double_of element (codes "free")
    value (asset, balance)

  -- An order with another status is left out.
  unfoldable pub read_closed_order :
      J → List (OrderDescription W) → Read (List (OrderDescription W))
  unfolding read_order_description
  read_closed_order order orders = get_int_of order (codes "status") >>= λ status.
      if status == pos 2
      then read_order_description order >>= (λ description. value (orders ++ description ∷ []))
      else value orders
