-- ===== src/Exchanges/Kraken/Results.antt =====
-- exchanges/kraken/kraken_results.cpp. A reader of an answer gives a result, or `none` where the source
-- leaves what it does undefined. A `std::unordered_map` is visited in an order that is not specified;
-- here it is that of insertion.
pub mod Answers
pub mod Levels
use marketblocks.Prelude.{
  max_ℤ, ℕ, zero, suc, ℤ, pos, negsuc, ◌+◌, ◌-◌, Bytes, Bool, true, Option, none, some, List, [],
  ◌∷◌, ◌++◌, length, get_elem?, ◌==◌, ltb_ℤ, ltb, bytes_equality, Map, emplace, if◌then◌else◌,
}
use marketblocks.Common.Text.{codes}
use marketblocks.Common.Strings.{contains, c_string, split}
use marketblocks.Common.Retry.{Result, success, failure}
use marketblocks.Common.Json.{
  Read, value, raised, ◌>>=◌, defined, catching, JsonLibrary, Numerals, get_long_of, get_string_of,
  get_strings_of, get_long_at, stod_of, stod_at, first_item, for_each, prepend_each, emplace_each,
  read_each, range, rounds_of,
}
use marketblocks.Trading.Constants.{
  TradeAction, sell, buy, OrderType, market, limit, stop_loss, take_profit,
}
use marketblocks.Trading.Pair.{TradablePair}
use marketblocks.Trading.Market.{OhlcvData, ask, bid, OrderBookSide, OrderBookEntry, OrderBookState}
use marketblocks.Trading.Order.{OrderDescription}
use marketblocks.Exchanges.Status.{ExchangeStatus, online, cancel_only, post_only, maintenance}

-- The first of the messages, where there is one.
unfoldable pub first_message : List Bytes → Bytes
first_message [] = []
first_message (message ∷ messages) = message

unfoldable pub to_order_type : Bytes → Read OrderType
to_order_type text =
    if text == codes "limit"
    then value limit
    else if text == codes "market"
    then value market
    else if contains (c_string text) (codes "stop-loss")
    then value stop_loss
    else if contains (c_string text) (codes "take-profit")
    then value take_profit
    else raised (codes "Unknown order type")

unfoldable pub to_status : Bytes → ExchangeStatus
to_status text =
    if text == codes "online"
    then online
    else if text == codes "cancel_only"
    then cancel_only
    else if text == codes "post_only"
    then post_only
    else maintenance

module _ {J : Type 0} ⦃l : JsonLibrary J⦄ where
  unfoldable pub get_error : J → Read Bytes
  unfolding first_message
  get_error json = do messages ← get_strings_of json (codes "error"); value (first_message messages)

  -- What `read_result` does inside its `try`.
  unfoldable pub read_document : {T : Type 0} → (J → Read T) → J → Read (Result T)
  unfolding get_error
  read_document reader json = get_error json >>= λ error.
      if error == []
      then l.member json (codes "result") >>= reader >>= (λ v. value (success v))
      else value (failure error)

  unfoldable pub read_result : {T : Type 0} → (J → Read T) → Bytes → Option (Result T)
  unfolding catching read_document
  read_result reader text = catching (l.parse text >>= read_document reader)

  -- `read_result<void>`, which does not look for "result".
  unfoldable pub read_document_void : J → Read (Result (Unit {0}))
  unfolding get_error
  read_document_void json =
      get_error json >>= λ error. value (if error == [] then success tt else failure error)

  unfoldable pub read_pair : J → Read TradablePair
  unfolding split
  read_pair element = do
    name ← get_string_of element (codes "wsname")
    let symbols = split name 47
    asset ← defined (get_elem? symbols 0)
    price_unit ← defined (get_elem? symbols 1)
    value record { asset = asset; price_unit = price_unit }

module _ (J : Type 0) ⦃l : JsonLibrary J⦄ where
  unfoldable pub read_result_void : Bytes → Option (Result (Unit {0}))
  unfolding catching read_document_void
  read_result_void text = catching (l.parse text >>= read_document_void)

module _ {J W : Type 0} ⦃l : JsonLibrary J⦄ ⦃n : Numerals J W⦄ where
  unfoldable pub read_ticker_price : J → Read W
  read_ticker_price element = do
    texts ← get_strings_of element (codes "c")
    text ← defined (get_elem? texts 0)
    n.stod text

  unfoldable pub read_order : Option Bytes × J → Read (OrderDescription W)
  unfolding to_order_type
  read_order (key, order) = do
    order_id ← defined key
    description ← l.member order (codes "descr")
    pair_name ← get_string_of description (codes "pair")
    side ← get_string_of description (codes "type")
    price ← stod_of description (codes "price")
    volume ← stod_of order (codes "vol")
    time ← get_long_of order (codes "opentm")
    type_text ← get_string_of order (codes "ordertype")
    order_type ← to_order_type type_text
    value record {
      time_stamp = time;
      order_id = order_id;
      order_type = order_type;
      pair_name = pair_name;
      action = if side == codes "buy" then buy else sell;
      price = price;
      volume = volume;
    }

  -- An order with another status is left out.
  unfoldable pub read_order_of_status :
      Bytes → Option Bytes × J → List (OrderDescription W) → Read (List (OrderDescription W))
  unfolding read_order
  read_order_of_status wanted item orders = do
    order_id ← defined item.0
    status ← get_string_of item.1 (codes "status")
    if status == wanted
        then read_order item >>= (λ order. value (orders ++ order ∷ []))
        else value orders

  unfoldable pub read_candle : J → Read (OhlcvData W)
  read_candle element = do
    time ← get_long_at element 0
    opening ← stod_at element 1
    high ← stod_at element 2
    low ← stod_at element 3
    close ← stod_at element 4
    volume ← stod_at element 6
    value record {
      time_stamp = time;
      opening = opening;
      high = high;
      low = low;
      close = close;
      volume = volume;
    }

  -- The element of round `i` is the i-th from the end.
  unfoldable pub read_candle_back : J → ℕ → Read (OhlcvData W)
  unfolding read_candle
  read_candle_back element i = l.index element (l.size element - i - 1) >>= read_candle

  unfoldable pub read_order_book_entry : OrderBookSide → J → Read (OrderBookEntry W)
  read_order_book_entry side element = do
    price ← stod_at element 0
    volume ← stod_at element 1
    value record { price = price; volume = volume; side = side }

  -- The round `i` of the loop over the depth, which is the number of asks.
  unfoldable pub read_level : J → J → ℕ → OrderBookState W → Read (OrderBookState W)
  unfolding read_order_book_entry
  read_level asks bids i book = do
    ask_element ← l.index asks i
    ask_entry ← read_order_book_entry ask ask_element
    bid_element ← l.index bids i
    bid_entry ← read_order_book_entry bid bid_element
    ask_time ← get_long_at ask_element 2
    bid_time ← get_long_at bid_element 2
    value record {
      time_stamp = max_ℤ book.time_stamp (max_ℤ ask_time bid_time);
      asks = book.asks ++ ask_entry ∷ [];
      bids = book.bids ++ bid_entry ∷ [];
    }

  unfoldable pub read_book : J → Read (OrderBookState W)
  unfolding read_level for_each
  read_book element = do
    asks ← l.member element (codes "asks")
    bids ← l.member element (codes "bids")
    for_each (read_level asks bids) (range (l.size asks))
        record { time_stamp = pos 0; asks = []; bids = [] }

  unfoldable pub read_symbol_price : Option Bytes × J → Read (Bytes × W)
  unfolding read_ticker_price
  read_symbol_price (key, element) = do
    symbol ← defined key
    price ← read_ticker_price element
    value (symbol, price)

  unfoldable pub read_balance : Option Bytes × J → Read (Bytes × W)
  read_balance (key, element) = do
    symbol ← defined key
    text ← l.get_string element
    balance ← n.stod text
    value (symbol, balance)
