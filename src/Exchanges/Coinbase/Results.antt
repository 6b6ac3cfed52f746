-- ===== src/Exchanges/Coinbase/Results.antt =====
-- exchanges/coinbase/coinbase_results.cpp. A reader of an answer gives a result, or `none` where the
-- source leaves what it does undefined. A `std::unordered_map` is visited in an order that is not
-- specified; here it is that of insertion.
pub mod Answers
pub mod Levels
use marketblocks.Prelude.{
  ℕ, zero, suc, ℤ, pos, negsuc, ◌+◌, ◌-◌, Bytes, Bool, true, ◌&&◌, Option, none, some, List, [],
  ◌∷◌, ◌++◌, length, get_elem?, ◌==◌, ltb_ℤ, eqb_ℤ, ltb, bytes_equality, int_equality, Map, lookup,
  emplace, ◌/ℤ◌, elem, if◌then◌else◌,
}
use marketblocks.Double.{Double, zero_double}
use marketblocks.Common.Text.{codes}
use marketblocks.Common.Strings.{contains, c_string, split, int_to_string}
use marketblocks.Common.Finance.{calculate_asset_price, calculate_volume}
use marketblocks.Common.Retry.{Result, success, failure}
use marketblocks.Common.Json.{
  Read, value, raised, unspecified, ◌>>=◌, defined, catching, JsonLibrary, Numerals, get_int_of,
  get_long_of, get_string_of, get_double_of, get_double_at, get_strings_of, get_long_at, stod_of,
  stod_at, first_item, for_each, prepend_each, emplace_each, read_each, range, rounds_of,
}
use marketblocks.Trading.Constants.{
  TradeAction, sell, buy, OrderType, market, limit, stop_loss, take_profit, trade_action_equality,
}
use marketblocks.Trading.Pair.{TradablePair, pair_equality}
use marketblocks.Trading.Market.{OhlcvData, ask, bid, OrderBookSide, OrderBookEntry, OrderBookState}
use marketblocks.Trading.Order.{OrderDescription}
use marketblocks.Exchanges.Status.{ExchangeStatus, online}
use marketblocks.Exchanges.Books.{read_sides}

unfoldable pub to_trade_action : Bytes → TradeAction
to_trade_action text = if text == codes "buy" then buy else sell

-- The function ends without a result where the text is none of the three.
unfoldable pub to_order_type : Bytes → Read OrderType
to_order_type text =
    if text == codes "limit"
    then value limit
    else if text == codes "market"
    then value market
    else if text == codes "stop"
    then value stop_loss
    else unspecified

module _ {J : Type 0} ⦃l : JsonLibrary J⦄ where
  -- What `read_result` does inside its `try`.
  unfoldable pub read_document : {T : Type 0} → (J → Read T) → J → Read (Result T)
  read_document reader json =
      if l.has_member json (codes "message")
      then get_string_of json (codes "message") >>= (λ e. value (failure e))
      else (reader json >>= λ v. value (success v))

  unfoldable pub read_result : {T : Type 0} → (J → Read T) → Bytes → Option (Result T)
  unfolding catching read_document
  read_result reader text = catching (l.parse text >>= read_document reader)

  unfoldable pub read_pair : J → Read TradablePair
  read_pair element = do
    asset ← get_string_of element (codes "base_currency")
    price_unit ← get_string_of element (codes "quote_currency")
    value record { asset = asset; price_unit = price_unit }

module _ {J W : Type 0} ⦃l : JsonLibrary J⦄ ⦃n : Numerals J W⦄ where
  unfoldable pub read_candle : J → Read (OhlcvData W)
  read_candle element = do
    time ← get_long_at element 0
    opening ← get_double_at element 3
    high ← get_double_at element 2
    low ← get_double_at element 1
    close ← get_double_at element 4
    volume ← get_double_at element 5
    value record {
      time_stamp = time;
      opening = opening;
      high = high;
      low = low;
      close = close;
      volume = volume;
    }

  unfoldable pub read_order_book_entry : OrderBookSide → J → Read (OrderBookEntry W)
  read_order_book_entry side element = do
    price ← stod_at element 0
    volume ← stod_at element 1
    value record { price = price; volume = volume; side = side }

  -- `if (i < elements.size())`, with the entry that is appended.
  unfoldable pub read_entry_at :
      OrderBookSide → J → ℕ → List (OrderBookEntry W) → Read (List (OrderBookEntry W))
  unfolding read_order_book_entry
  read_entry_at side elements i entries =
      if ltb i (l.size elements)
      then l.index elements i
        >>= read_order_book_entry side
        >>= (λ entry. value (entries ++ entry ∷ []))
      else value entries

  -- The sides of the entries are as the source has them: a bid is an ask, and an ask a bid.
  unfoldable pub read_level :
      J
      → J
      → ℕ
      → List (OrderBookEntry W) × List (OrderBookEntry W)
      → Read (List (OrderBookEntry W) × List (OrderBookEntry W))
  unfolding read_entry_at
  read_level bids asks i (bid_entries, ask_entries) = do
    next_bids ← read_entry_at ask bids i bid_entries
    next_asks ← read_entry_at bid asks i ask_entries
    value (next_bids, next_asks)

  unfoldable pub read_levels : J → J → ℕ → Read (List (OrderBookEntry W) × List (OrderBookEntry W))
  unfolding read_level for_each range
  read_levels bids asks depth = for_each (read_level bids asks) (range depth) ([], [])

  unfoldable pub read_book : ℤ → J → Read (OrderBookState W)
  unfolding read_levels
  read_book (negsuc depth) json = do
    bids ← l.member json (codes "bids")
    asks ← l.member json (codes "asks")
    raised n.length_error
  read_book (pos depth) json = do
    bids ← l.member json (codes "bids")
    asks ← l.member json (codes "asks")
    entries ← read_levels bids asks depth
    time ← get_long_of json (codes "sequence")
    value record { time_stamp = time; asks = entries.1; bids = entries.0 }

  unfoldable pub read_balance : J → Read (Bytes × W)
  read_balance element = do
    asset ← get_string_of element (codes "currency")
    balance ← stod_of element (codes "balance")
    value (asset, balance)

module _ {J W : Type 0} ⦃l : JsonLibrary J⦄ ⦃n : Numerals J W⦄ ⦃d : Double W⦄ where
  -- The price of an order without one is that of its cost.
  unfoldable pub read_order_price : J → W → Read W
  unfolding calculate_asset_price
  read_order_price order size =
      if l.has_member order (codes "price")
      then stod_of order (codes "price")
      else (stod_of order
            (if l.has_member order (codes "funds") then codes "funds" else codes "executed_value")
          >>= (λ cost. value (calculate_asset_price cost size)))

  unfoldable pub read_order : J → Read (OrderDescription W)
  unfolding read_order_price to_order_type to_trade_action
  read_order order = do
    size ← stod_of order (codes "size")
    price ← read_order_price order size
    created ← get_string_of order (codes "created_at")
    time ← n.to_time_t created (codes "%Y-%m-%dT%T")
    order_id ← get_string_of order (codes "id")
    type_text ← get_string_of order (codes "type")
    order_type ← to_order_type type_text
    pair_name ← get_string_of order (codes "product_id")
    side ← get_string_of order (codes "side")
    value record {
      time_stamp = time;
      order_id = order_id;
      order_type = order_type;
      pair_name = pair_name;
      action = to_trade_action side;
      price = price;
      volume = size;
    }
