-- ===== src/Exchanges/Kraken/Stream.antt =====
-- exchanges/kraken/kraken_websocket.cpp: what the stream of Kraken does with a message, and what it sends.
-- An exception leaves `on_message`. Numerals of minutes are small enough for an `int` of seconds.
pub mod Messages
pub mod Updated
pub mod Trades
pub mod Tests
use marketblocks.Prelude.{
  ℕ, ℤ, pos, negsuc, ◌-◌, Bytes, Bool, Option, none, some, List, [], ◌∷◌, map, get_elem?, max_ℤ,
  ltb, ◌==◌, bytes_equality, nat_equality, if◌then◌else◌,
}
use marketblocks.Double.{Double}
use marketblocks.Common.Text.{codes}
use marketblocks.Common.Strings.{contains, split}
use marketblocks.Common.Run.{
  Run, returns, throws, undefined, bad_variant_access, and_then, run_each,
}
use marketblocks.Common.Json.{
  Read, value, unspecified, ◌>>=◌, defined, JsonLibrary, Numerals, get_string_at, stod_at, for_each,
  range,
}
use marketblocks.Trading.Pair.{TradablePair, pair_to_string_with}
use marketblocks.Trading.Market.{TradeUpdate, OhlcvData, OrderBookSide, ask, bid, OrderBookEntry}
use marketblocks.Websockets.Constants.{
  WebsocketChannel, order_book, trade, ohlcv, OhlcvInterval, unknown, from_minutes, to_minutes,
}
use marketblocks.Websockets.Stream.{Subscription}
use marketblocks.Websockets.BookCache.{
  OrderBookCache, set_insert, entry_less_than, entry_greater_than,
}
use marketblocks.Websockets.Live.{LiveStream}

-- What `create_message` writes, before the JSON library makes a text of it.
pub record SubscriptionMessage : Type 0 where
  pub event : Bytes
  pub pair : List Bytes
  pub name : Bytes
  -- `none` inside is an interval without a number of minutes
  pub interval : Option (Option ℕ)
  pub book_depth : Option ℕ

unfoldable pub channel_name : WebsocketChannel → Bytes
channel_name trade = codes "trade"
channel_name ohlcv = codes "ohlc"
channel_name order_book = codes "book"

message_of :
    Bytes → Subscription (List TradablePair) → Option (Option ℕ) → Option ℕ → SubscriptionMessage
unfolding channel_name
message_of event s interval depth = record {
  event = event;
  pair = map (λ pair. pair_to_string_with pair 47) s.pair_item;
  name = channel_name s.channel;
  interval = interval;
  book_depth = depth;
}

-- `none` is `std::bad_variant_access`, for a candle subscription without an interval.
unfoldable pub create_message :
    Bytes → Subscription (List TradablePair) → Option SubscriptionMessage
unfolding message_of
create_message event s = elim s.channel [
  | trade ↦ some (message_of event s none none)
  | order_book ↦ some (message_of event s none (some 100))
  | ohlcv ↦ elim s.parameter [
    | none ↦ none
    | some interval ↦ some (message_of event s (some (to_minutes interval)) none)
  ]
]

-- `send_subscribe` and `send_unsubscribe`, which differ in the event.
module _ {W C : Type 0} (send_message : SubscriptionMessage → C → C) where
  unfoldable pub send_event :
      Bytes → Subscription (List TradablePair) → LiveStream W C → Run (LiveStream W C) (Unit {0})
  unfolding create_message
  send_event event s l = elim (create_message event s) [
    | none ↦ throws bad_variant_access l
    | some message ↦ elim l.connection [
      | none ↦ undefined
      | some c ↦ returns tt (record l { connection = some (send_message message c) })
    ]
  ]

unfoldable pub interval_of : ℤ → OhlcvInterval
interval_of (pos minutes) = from_minutes minutes
interval_of (negsuc n) = unknown

-- The interval at the end of the name of a channel: its part behind the first dash.
unfoldable pub minute_text : Bytes → Read Bytes
unfolding split
minute_text channel = defined (get_elem? (split channel 45) 1)

module _ {J : Type 0} ⦃l : JsonLibrary J⦄ where
  -- The k-th element from the end; before the first it is undefined.
  unfoldable pub from_end : J → ℕ → Read J
  from_end json k = if ltb (l.size json) k then unspecified else l.index json (l.size json - k)

module _ {J W : Type 0} ⦃l : JsonLibrary J⦄ ⦃n : Numerals J W⦄ where
  unfoldable pub create_order_book_entry : OrderBookSide → J → Read (OrderBookEntry W)
  create_order_book_entry side json = do
    price ← stod_at json 0
    volume ← stod_at json 1
    value record { price = price; volume = volume; side = side }

  unfoldable pub read_trade : J → Read (TradeUpdate W)
  read_trade element = do
    price ← stod_at element 0
    volume ← stod_at element 1
    time_text ← get_string_at element 2
    time ← n.stoll time_text
    value record { time_stamp = time; price = price; volume = volume }

  unfoldable pub read_channel_candle : J → Read (OhlcvData W)
  read_channel_candle element = do
    time_text ← get_string_at element 0
    time ← n.stoll time_text
    opening ← stod_at element 2
    high ← stod_at element 3
    low ← stod_at element 4
    close ← stod_at element 5
    volume ← stod_at element 7
    value record {
      time_stamp = time;
      opening = opening;
      high = high;
      low = low;
      close = close;
      volume = volume;
    }

  -- An entry of an update, with its time.
  unfoldable pub read_change : OrderBookSide → J → Read (OrderBookEntry W × ℤ)
  unfolding create_order_book_entry
  read_change side element = do
    entry ← create_order_book_entry side element
    time_text ← get_string_at element 2
    time ← n.stoll time_text
    value (entry, time)

module _ {W : Type 0} ⦃d : Double W⦄ where
  unfoldable pub insert_by_side :
      OrderBookSide → OrderBookEntry W → ℤ → OrderBookCache W → OrderBookCache W
  insert_by_side ask entry time cache = record cache {
    last_update = max_ℤ cache.last_update time;
    asks = set_insert entry_less_than entry cache.asks;
  }
  insert_by_side bid entry time cache = record cache {
    last_update = max_ℤ cache.last_update time;
    bids = set_insert entry_greater_than entry cache.bids;
  }

module _ {J W : Type 0} ⦃l : JsonLibrary J⦄ ⦃n : Numerals J W⦄ ⦃d : Double W⦄ where
  -- `if (i < elements.size())`, with the entry that is put into the cache.
  unfoldable pub put_level : OrderBookSide → J → ℕ → OrderBookCache W → Read (OrderBookCache W)
  unfolding read_change insert_by_side
  put_level side elements i cache =
      if ltb i (l.size elements)
      then l.index elements i
        >>= read_change side
        >>= (λ change. value (insert_by_side side change.0 change.1 cache))
      else value cache

  unfoldable pub create_order_book_cache : J → Read (OrderBookCache W)
  unfolding put_level for_each range
  create_order_book_cache json = do
    asks ← l.member json (codes "as")
    bids ← l.member json (codes "bs")
    let depth = if ltb (l.size asks) (l.size bids) then l.size bids else l.size asks
    for_each (λ i cache. put_level ask asks i cache >>= put_level bid bids i) (range depth)
        record { last_update = pos 0; asks = []; bids = [] }
