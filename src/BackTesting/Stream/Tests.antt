-- ===== src/BackTesting/Stream/Tests.antt =====
-- The stream of a back test with no data, at a few subscriptions.
use marketblocks.Prelude.{pos, List, [], ◌∷◌, refl, none, some}
use marketblocks.Double.Fixed.{Fixed}
use marketblocks.Common.Run.{and_then}
use marketblocks.Common.Text.{codes}
use marketblocks.Trading.Pair.{TradablePair}
use marketblocks.Websockets.Constants.{trade, ohlcv, subscribed, unsubscribed, m5}
use marketblocks.Websockets.Stream.{Subscription}
use marketblocks.BackTesting.Data.{new_back_testing_data}
use marketblocks.BackTesting.Stream.{
  BackTestWorld, subscribe, unsubscribe, get_subscription_status, same_subscription, is_in,
}
use marketblocks.BackTesting.Stream.Statuses.{Tells, subscribe-status, unsubscribe-status}

abbrev btc_gbp : TradablePair
btc_gbp = record { asset = codes "BTC"; price_unit = codes "GBP" }

abbrev eth_gbp : TradablePair
eth_gbp = record { asset = codes "ETH"; price_unit = codes "GBP" }

abbrev candles_of_btc : Subscription TradablePair
candles_of_btc = record { channel = ohlcv; pair_item = btc_gbp; parameter = some m5 }

abbrev trades_of_eth : Subscription TradablePair
trades_of_eth = record { channel = trade; pair_item = eth_gbp; parameter = none }

abbrev trades_of_both : Subscription (List TradablePair)
trades_of_both = record { channel = trade; pair_item = btc_gbp ∷ eth_gbp ∷ []; parameter = none }

abbrev world : BackTestWorld Fixed (Unit {0})
world = record {
  back_testing_data = new_back_testing_data [] [] (pos 0) (pos 60) (pos 60) (pos 1) none;
  subscriptions = candles_of_btc ∷ trades_of_eth ∷ [];
  program = tt;
}

subscribe-status_example :
    Tells subscribed
      (and_then (subscribe trades_of_both world) λ u t. get_subscription_status trades_of_eth t)
unfolding same_subscription is_in
subscribe-status_example = subscribe-status trades_of_both trades_of_eth world refl refl

unsubscribe-status_example :
    Tells unsubscribed
      (and_then (unsubscribe trades_of_both world) λ u t. get_subscription_status trades_of_eth t)
unfolding same_subscription is_in
unsubscribe-status_example = unsubscribe-status trades_of_both trades_of_eth world refl refl

-- The subscription to candles stays.
unsubscribe-other :
    Tells subscribed
      (and_then (unsubscribe trades_of_both world) λ u t. get_subscription_status candles_of_btc t)
unfolding same_subscription is_in
unsubscribe-other = unsubscribe-status trades_of_both candles_of_btc world refl refl
