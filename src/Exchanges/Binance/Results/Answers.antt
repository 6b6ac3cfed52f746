-- ===== src/Exchanges/Binance/Results/Answers.antt =====
-- exchanges/binance/binance_results.cpp: the reader of each answer. A `std::unordered_map` is visited in
-- an order that is not specified; here it is that of insertion.
use marketblocks.Prelude.{
  ℤ, pos, Bytes, Option, List, [], ◌==◌, bytes_equality, Map, emplace, ◌/ℤ◌, if◌then◌else◌,
}
use marketblocks.Double.{Double, zero_double}
use marketblocks.Common.Text.{codes}
use marketblocks.Common.Strings.{int_to_string}
use marketblocks.Common.Retry.{Result}
use marketblocks.Common.Json.{
  Read, value, raised, ◌>>=◌, JsonLibrary, Numerals, get_long_of, get_double_of, get_string_of,
  get_long_at, stod_of, stod_at, for_each, prepend_each, emplace_each, read_each,
}
use marketblocks.Trading.Pair.{TradablePair, pair_equality}
use marketblocks.Trading.Market.{OhlcvData, ask, bid, OrderBookState}
use marketblocks.Trading.Order.{OrderDescription, OrderConfirmation}
use marketblocks.Exchanges.Status.{ExchangeStatus, online}
use marketblocks.Exchanges.Books.{read_sides}
use marketblocks.Exchanges.Binance.Results.{
  to_order_status, read_order_book_entry, read_order_description, read_result,
}

-- binance_order_filters.h
pub record BinanceOrderFilters (W : Type 0) : Type 0 where
  pub price_precision : ℤ
  pub qty_precision : ℤ
  pub min_qty : W
  pub min_value : W

-- The locals of the loop over the filters of a pair.
pub record Filters (W : Type 0) : Type 0 where
  pub tick_size : W
  pub least_qty : W
  pub qty_step_size : W
  pub least_value : W

-- The exception is thrown out of the reader.
unfoldable pub read_closed_orders : (W : Type 0) → Bytes → Read (Result (List (OrderDescription W)))
read_closed_orders W text = raised (codes "binance::read_closed_orders")

module _ {J W : Type 0} ⦃l : JsonLibrary J⦄ ⦃n : Numerals J W⦄ where
  unfoldable pub read_filter : J → Filters W → Read (Filters W)
  read_filter filter f = get_string_of filter (codes "filterType") >>= λ filter_type.
      if filter_type == codes "PRICE_FILTER"
      then stod_of filter (codes "tickSize") >>= (λ tick. value record f { tick_size = tick })
      else if filter_type == codes "LOT_SIZE"
      then stod_of filter (codes "minQty") >>= (λ least.
        stod_of filter (codes "stepSize")
        >>= (λ step. value record f { least_qty = least; qty_step_size = step }))
      else if filter_type == codes "MIN_NOTIONAL"
      then stod_of filter (codes "minNotional")
        >>= (λ least. value record f { least_value = least })
      else value f

  unfoldable pub read_candle : J → Read (OhlcvData W)
  read_candle element = do
    time ← get_long_at element 0
    opening ← stod_at element 1
    high ← stod_at element 2
    low ← stod_at element 3
    close ← stod_at element 4
    volume ← stod_at element 5
    value record {
      time_stamp = time /ℤ pos 1000;
      opening = opening;
      high = high;
      low = low;
      close = close;
      volume = volume;
    }

  unfoldable pub read_symbol_price : J → Read (Bytes × W)
  read_symbol_price element = do
    symbol ← get_string_of element (codes "symbol")
    price ← stod_of element (codes "price")
    value (symbol, price)

  unfoldable pub read_book : J → Read (OrderBookState W)
  unfolding read_sides read_order_book_entry
  read_book json = do
    asks ← l.member json (codes "asks")
    bids ← l.member json (codes "bids")
    sides ←
        read_sides (λ item. read_order_book_entry ask item.1)
          (λ item. read_order_book_entry bid item.1) (l.items asks) (l.items bids)
    time ← get_long_of json (codes "lastUpdateId")
    value record { time_stamp = time; asks = sides.0; bids = sides.1 }

  unfoldable pub read_balance : J → Read (Bytes × W)
  read_balance element = do
    asset ← get_string_of element (codes "asset")
    balance ← stod_of element (codes "free")
    value (asset, balance)

module _ {W : Type 0} ⦃d : Double W⦄ where
  no_filters : Filters W
  no_filters = record {
    tick_size = zero_double;
    least_qty = zero_double;
    qty_step_size = zero_double;
    least_value = zero_double;
  }

  -- The sums of price times quantity and of quantity over the fills.
  unfoldable pub add_fill : W × W → W × W → W × W
  add_fill (total, filled) (price, qty) = (d.add total (d.mul price qty), d.add filled qty)

module _ {J W : Type 0} ⦃l : JsonLibrary J⦄ ⦃n : Numerals J W⦄ ⦃d : Double W⦄ where
  unfoldable pub read_pair_filters :
      J → Map TradablePair (BinanceOrderFilters W) → Read (Map TradablePair (BinanceOrderFilters W))
  unfolding emplace for_each read_filter no_filters
  read_pair_filters element pairs = do
    asset ← get_string_of element (codes "baseAsset")
    price_unit ← get_string_of element (codes "quoteAsset")
    filters ← l.member element (codes "filters")
    f ← for_each (λ item. read_filter item.1) (l.items filters) no_filters
    price_precision ← n.to_int (n.negate (n.log10 f.tick_size))
    qty_precision ← n.to_int (n.negate (n.log10 f.qty_step_size))
    value (
        emplace record { asset = asset; price_unit = price_unit }
          record {
            price_precision = price_precision;
            qty_precision = qty_precision;
            min_qty = f.least_qty;
            min_value = f.least_value;
          }
          pairs)

  unfoldable pub read_fill : J → Read (W × W)
  read_fill fill = do
    price ← stod_of fill (codes "price")
    qty ← stod_of fill (codes "qty")
    value (price, qty)

  unfoldable pub read_fills : J → Read (W × W)
  unfolding for_each read_fill add_fill
  read_fills fills =
      for_each (λ item sums. read_fill item.1 >>= (λ fill. value (add_fill sums fill)))
        (l.items fills) (zero_double, zero_double)

  unfoldable pub read_confirmation : J → Read (OrderConfirmation W)
  unfolding read_fills to_order_status
  read_confirmation json = do
    fills ← l.member json (codes "fills")
    sums ← read_fills fills
    order_id ← get_long_of json (codes "orderId")
    status ← get_string_of json (codes "status")
    original ← stod_of json (codes "origQty")
    executed ← stod_of json (codes "executedQty")
    value record {
      order_id = int_to_string order_id;
      order_status = to_order_status status;
      original_qty = original;
      filled_qty = executed;
      price = d.div sums.0 sums.1;
    }

module _ (J : Type 0) ⦃l : JsonLibrary J⦄ where
  unfoldable pub read_system_status : Bytes → Option (Result ExchangeStatus)
  unfolding read_result
  read_system_status = read_result {J = J} (λ json. value online)

  unfoldable pub read_add_order : Bytes → Option (Result Bytes)
  unfolding read_result
  read_add_order =
      read_result {J = J}
        λ json. do order_id ← get_long_of json (codes "orderId"); value (int_to_string order_id)

  unfoldable pub read_cancel_order : Bytes → Option (Result (Unit {0}))
  unfolding read_result
  read_cancel_order = read_result {J = J} (λ json. value _)

module _ (J : Type 0) {W : Type 0} ⦃l : JsonLibrary J⦄ ⦃n : Numerals J W⦄ where
  unfoldable pub read_ohlcv : Bytes → Option (Result (List (OhlcvData W)))
  unfolding read_result read_candle prepend_each
  read_ohlcv = read_result {J = J} λ json. prepend_each (λ item. read_candle item.1) (l.items json)

  unfoldable pub read_price : Bytes → Option (Result W)
  unfolding read_result
  read_price = read_result {J = J} (λ json. stod_of json (codes "price"))

  unfoldable pub read_prices : Bytes → Option (Result (Map Bytes W))
  unfolding read_result read_symbol_price emplace_each
  read_prices =
      read_result {J = J} λ json. emplace_each (λ item. read_symbol_price item.1) (l.items json)

  unfoldable pub read_order_book : Bytes → Option (Result (OrderBookState W))
  unfolding read_result read_book
  read_order_book = read_result {J = J} read_book

  unfoldable pub read_balances : Bytes → Option (Result (Map Bytes W))
  unfolding read_result read_balance emplace_each
  read_balances = read_result {J = J} λ json. do
    balances ← l.member json (codes "balances")
    emplace_each (λ item. read_balance item.1) (l.items balances)

  unfoldable pub read_open_orders : Bytes → Option (Result (List (OrderDescription W)))
  unfolding read_result read_order_description read_each
  read_open_orders =
      read_result {J = J} λ json. read_each (λ item. read_order_description item.1) (l.items json)

module _ (J : Type 0) {W : Type 0} ⦃l : JsonLibrary J⦄ ⦃n : Numerals J W⦄ ⦃d : Double W⦄ where
  unfoldable pub read_tradable_pairs :
      Bytes → Option (Result (Map TradablePair (BinanceOrderFilters W)))
  unfolding read_result read_pair_filters for_each
  read_tradable_pairs = read_result {J = J} λ json. do
    symbols ← l.member json (codes "symbols")
    for_each (λ item. read_pair_filters item.1) (l.items symbols) []

  unfoldable pub read_fee : Bytes → Option (Result W)
  unfolding read_result
  read_fee = read_result {J = J} λ json. do
    commission ← get_double_of json (codes "takerCommission")
    value (d.div commission (d.literal (pos 100) 0))

  unfoldable pub read_add_order_confirm : Bytes → Option (Result (OrderConfirmation W))
  unfolding read_result read_confirmation
  read_add_order_confirm = read_result {J = J} read_confirmation
