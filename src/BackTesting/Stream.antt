-- ===== src/BackTesting/Stream.antt =====
-- testing/back_testing/backtest_websocket_stream.h and .cpp: the stream of a back test, which reads the
-- historical data and tells its handlers of them at each step of time. The handlers do not change the
-- subscriptions while `notify` goes through them, which C++ would leave undefined.
pub mod Statuses
pub mod Tests
use marketblocks.Prelude.{
  ℕ, ℤ, pos, Bool, true, false, ◌&&◌, ◌||◌, not, Option, none, some, List, [], ◌∷◌, ◌++◌, ◌==◌,
  if◌then◌else◌,
}
use marketblocks.Double.{Double}
use marketblocks.Common.Run.{
  Run, returns, throws, undefined, and_then, with_state, run_each, or_undefined, bad_variant_access,
}
use marketblocks.Trading.Pair.{TradablePair, pair_equality}
use marketblocks.Trading.Market.{TradeUpdate, OhlcvData, OrderBookEntry, OrderBookState, no_ohlcv}
use marketblocks.Websockets.Constants.{
  WebsocketChannel, order_book, trade, ohlcv, OhlcvInterval, SubscriptionStatus, unsubscribed,
  subscribed, channel_equality, interval_equality, to_seconds,
}
use marketblocks.Websockets.Stream.{Subscription}
use marketblocks.Websockets.Messages.{
  TradeUpdateMessage, OhlcvUpdateMessage, OrderBookUpdateMessage,
}
use marketblocks.Websockets.Handlers.{
  StreamHandlers, has_trade_update_handler, has_ohlcv_update_handler, has_order_book_update_handler,
  fire_trade_update, fire_ohlcv_update, fire_order_book_update,
}
use marketblocks.BackTesting.Data.{BackTestingData, get_trade, get_order_book}
use marketblocks.BackTesting.Candles.{get_ohlcv}

-- The stream with its data and the state of the program that the handlers belong to.
pub record BackTestWorld (W S : Type 0) : Type 0 where
  pub back_testing_data : BackTestingData W
  pub subscriptions : List (Subscription TradablePair)
  pub program : S

-- `operator==` of the parameters of two candle subscriptions, which both have an interval.
abbrev same_interval : Option OhlcvInterval → Option OhlcvInterval → Bool
same_interval (some i) (some j) = i == j
same_interval _ _ = false

abbrev same_parameter : WebsocketChannel → Option OhlcvInterval → Option OhlcvInterval → Bool
same_parameter ohlcv p q = same_interval p q
same_parameter trade p q = true
same_parameter order_book p q = true

unfoldable pub same_subscription : Subscription TradablePair → Subscription TradablePair → Bool
same_subscription a b =
    a.channel == b.channel
    && a.pair_item == b.pair_item
    && same_parameter a.channel a.parameter b.parameter

-- Whether the hash of a subscription is defined; it throws `std::bad_variant_access` else.
abbrev pub has_hash_of : WebsocketChannel → Option OhlcvInterval → Bool
has_hash_of ohlcv none = false
has_hash_of ohlcv (some i) = true
has_hash_of trade p = true
has_hash_of order_book p = true

abbrev pub has_hash : Subscription TradablePair → Bool
has_hash s = has_hash_of s.channel s.parameter

-- The operations of the set.
unfoldable pub is_in : Subscription TradablePair → List (Subscription TradablePair) → Bool
is_in s [] = false
is_in s (x ∷ xs) = same_subscription x s || is_in s xs

unfoldable pub insert_subscription :
    Subscription TradablePair → List (Subscription TradablePair) → List (Subscription TradablePair)
unfolding is_in
insert_subscription s subs = if is_in s subs then subs else subs ++ s ∷ []

unfoldable pub erase_subscription :
    Subscription TradablePair → List (Subscription TradablePair) → List (Subscription TradablePair)
erase_subscription s [] = []
erase_subscription s (x ∷ xs) =
    if same_subscription x s then erase_subscription s xs else x ∷ erase_subscription s xs

-- The subscription to one of the pairs.
abbrev pub one_of : Subscription (List TradablePair) → TradablePair → Subscription TradablePair
one_of s pair = record { channel = s.channel; pair_item = pair; parameter = s.parameter }

module _ {W S : Type 0} where
  abbrev pub change_set :
      (Subscription TradablePair
        → List (Subscription TradablePair)
        → List (Subscription TradablePair))
      → Subscription TradablePair
      → BackTestWorld W S
      → Run (BackTestWorld W S) (Unit {0})
  change_set change s w =
      if has_hash s
      then returns tt (record w { subscriptions = change s w.subscriptions })
      else throws bad_variant_access w

  unfoldable pub subscribe :
      Subscription (List TradablePair) → BackTestWorld W S → Run (BackTestWorld W S) (Unit {0})
  unfolding run_each insert_subscription
  subscribe s = run_each (λ pair. change_set insert_subscription (one_of s pair)) s.pair_item

  unfoldable pub unsubscribe :
      Subscription (List TradablePair) → BackTestWorld W S → Run (BackTestWorld W S) (Unit {0})
  unfolding run_each erase_subscription
  unsubscribe s = run_each (λ pair. change_set erase_subscription (one_of s pair)) s.pair_item

  unfoldable pub get_subscription_status :
      Subscription TradablePair → BackTestWorld W S → Run (BackTestWorld W S) SubscriptionStatus
  unfolding is_in
  get_subscription_status s w =
      if has_hash s
      then returns (if is_in s w.subscriptions then subscribed else unsubscribed) w
      else throws bad_variant_access w

  -- A call on the data.
  abbrev on_data :
      {A : Type 0}
      → (BackTestingData W → Run (BackTestingData W) A)
      → BackTestWorld W S
      → Run (BackTestWorld W S) A
  on_data call w = with_state (λ b. record w { back_testing_data = b }) (call w.back_testing_data)

abbrev pub first_candle : {W : Type 0} → ⦃d : Double W⦄ → List (OhlcvData W) → OhlcvData W
first_candle [] = no_ohlcv
first_candle (candle ∷ candles) = candle

module _ {W S : Type 0} ⦃d : Double W⦄ where
  abbrev pub get_last_trade :
      TradablePair → BackTestWorld W S → Run (BackTestWorld W S) (TradeUpdate W)
  get_last_trade pair = on_data (get_trade pair)

  -- `get_order_book` of the stream; the data's one reads no depth.
  abbrev pub get_stream_book :
      TradablePair → ℕ → BackTestWorld W S → Run (BackTestWorld W S) (OrderBookState W)
  get_stream_book pair depth = on_data (get_order_book pair)

  abbrev pub get_last_candle :
      TradablePair → OhlcvInterval → BackTestWorld W S → Run (BackTestWorld W S) (OhlcvData W)
  get_last_candle pair interval w = and_then (or_undefined (to_seconds interval) w) λ seconds w.
      and_then (on_data (get_ohlcv pair (pos seconds) 1) w)
        λ candles w. returns (first_candle candles) w

abbrev first_entry : {W : Type 0} → List (OrderBookEntry W) → Option (OrderBookEntry W)
first_entry [] = none
first_entry (entry ∷ entries) = some entry

module _ {W S : Type 0} ⦃d : Double W⦄
    (handlers : StreamHandlers
      (BackTestWorld W S)
      (TradeUpdateMessage W)
      (OhlcvUpdateMessage W)
      (OrderBookUpdateMessage W)) where
  abbrev notify_trade : TradablePair → BackTestWorld W S → Run (BackTestWorld W S) (Unit {0})
  notify_trade pair w =
      and_then (on_data (get_trade pair) w)
        λ t w. fire_trade_update handlers (record { pair = pair; trade = t }) w

  abbrev notify_ohlcv :
      TradablePair → Option OhlcvInterval → BackTestWorld W S → Run (BackTestWorld W S) (Unit {0})
  notify_ohlcv pair none w = throws bad_variant_access w
  notify_ohlcv pair (some interval) w = and_then (or_undefined (to_seconds interval) w) λ seconds w.
      and_then (on_data (get_ohlcv pair (pos seconds) 1) w) λ candles w.
        fire_ohlcv_update handlers
          (record { pair = pair; interval = interval; ohlcv = first_candle candles }) w

  abbrev notify_book : TradablePair → BackTestWorld W S → Run (BackTestWorld W S) (Unit {0})
  notify_book pair w = and_then (on_data (get_order_book pair) w) λ book w.
      and_then (or_undefined (first_entry book.asks) w)
        λ entry w. fire_order_book_update handlers (record { pair = pair; entry = entry }) w

  unfoldable pub notify_one :
      Subscription TradablePair → BackTestWorld W S → Run (BackTestWorld W S) (Unit {0})
  notify_one s w = elim s.channel [
    | trade ↦ if has_trade_update_handler handlers then notify_trade s.pair_item w else returns tt w
    | ohlcv ↦
        if has_ohlcv_update_handler handlers
        then notify_ohlcv s.pair_item s.parameter w
        else returns tt w
    | order_book ↦
        if has_order_book_update_handler handlers then notify_book s.pair_item w else returns tt w
  ]

  unfoldable pub notify : BackTestWorld W S → Run (BackTestWorld W S) (Unit {0})
  unfolding run_each notify_one
  notify w = run_each notify_one w.subscriptions w
