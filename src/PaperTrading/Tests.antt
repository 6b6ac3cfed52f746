-- ===== src/PaperTrading/Tests.antt =====
-- Runs of the account, and the theorems at inputs that meet their hypotheses.
use marketblocks.Prelude.{
  ℕ, ℤ, pos, Bytes, Bool, true, false, some, none, List, [], ◌∷◌, map, nat_equality, ◌≡◌, refl,
  arith, bytes_equality, Map, lookup, contains_key, lookup_or, list_beq_iff, emplace,
  insert_or_assign, erase, if◌then◌else◌, ◌↔◌, ◌⊎◌, ◌<◌,
}
use mathlib.Core.Bool.{false≢true}
use marketblocks.Double.Fixed.{Fixed, fixed_double, runs_fixed}
use marketblocks.Common.Text.{codes, to_string}
use marketblocks.Common.Finance.{calculate_cost}
use marketblocks.Common.Run.{after, returns, throws, insufficient_funds, Leaves}
use marketblocks.Trading.Constants.{buy}
use marketblocks.Trading.Pair.{TradablePair}
use marketblocks.Trading.Order.{
  OrderRequest, OrderDescription, create_market_order, create_limit_order, get,
}
use marketblocks.Websockets.Constants.{subscribed, unsubscribed}
use marketblocks.Websockets.Stream.{WebsocketStream}
use marketblocks.PaperTrading.State.{
  new_paper_trade_api, to_integer_volume, has_sufficient_funds, to_order_description,
}
use marketblocks.PaperTrading.Settle.{Settlement, settle, transfer, execute_order}
use marketblocks.PaperTrading.Settle.Balances.{
  FitsWords, FitsWords-nil, FitsWords-cons, IsSettled, execute_order-settles,
  execute_order-throws_iff,
}
use marketblocks.PaperTrading.Fill.{
  try_fill_order, fill_at, fill_by_type, finish_fill, should_close_limit_order,
}
use marketblocks.PaperTrading.Api.{
  World, add_order, cancel_order, step, run, Call, adds, updates, cancels, feeds,
}
use marketblocks.PaperTrading.Books.{
  IsConsistent, run-new-IsConsistent, add_order-Added, Added, trade_update_handler-IsConsistent,
  trade_update_handler-sweeps, is_due,
}
use marketblocks.PaperTrading.Fill.Attempt.{Tried, try_fill_order-Tried}
use marketblocks.PaperTrading.Handler.{
  trade_update_handler, handle_rounds, handle_round, handle_order, after_fill, drop_id,
}

-- A stream that knows one price, and whether someone has subscribed.
abbrev Feed : Type 0
Feed = Fixed × Bool

abbrev feed : WebsocketStream Feed Fixed
feed = record {
  get_last_trade = λ s p. record { time_stamp = pos 7; price = s.0; volume = pos 10_000 };
  get_subscription_status = λ s sub. if s.1 then subscribed else unsubscribed;
  subscribe = λ s sub. ((s.0, true), none);
}

abbrev btc_gbp : TradablePair
btc_gbp = record { asset = codes "BTC"; price_unit = codes "GBP" }

-- 20 pounds for a coin; a fee of 0.1 percent; 100 pounds and one and a half coins.
abbrev start : World Fixed Feed
start = record {
  api =
      new_paper_trade_api (pos 1_000)
        ((codes "GBP", pos 1_000_000) ∷ (codes "BTC", pos 15_000) ∷ []);
  feed = (pos 200_000, false);
}

-- Every definition that a run of the account goes through.
runs_api : ℕ
unfolding new_paper_trade_api step add_order try_fill_order fill_at fill_by_type finish_fill
    execute_order settle calculate_cost create_market_order create_limit_order get to_string
    has_sufficient_funds transfer to_order_description runs_fixed to_integer_volume insert_or_assign
    lookup erase emplace lookup_or should_close_limit_order run trade_update_handler cancel_order
    handle_rounds handle_round handle_order after_fill drop_id contains_key
runs_api = 0

market_buy : OrderRequest Fixed
unfolding create_market_order
market_buy = create_market_order btc_gbp buy (pos 20_000)

-- A limit order that the market has not reached.
limit_buy : OrderRequest Fixed
unfolding create_limit_order
limit_buy = create_limit_order btc_gbp buy (pos 150_000) (pos 20_000)

-- Buy two coins: 1.5 + 2 coins, and 100 - 40.04 pounds.
buy_two : World Fixed Feed
unfolding runs_api
buy_two = step feed (pos 7, adds market_buy) start

buys : buy_two.api.balances ≡ (codes "GBP", 599_600_000_000) ∷ (codes "BTC", 35_000_000_000) ∷ []
unfolding buy_two runs_api market_buy
buys = refl

abbrev calls : List (ℤ × Call Fixed Feed)
calls =
    (pos 7, adds limit_buy)
    ∷ (pos 8, feeds (pos 100_000, true))
    ∷ (pos 8, updates btc_gbp)
    ∷ (pos 9, cancels (codes "3"))
    ∷ []

-- The update fills the limit order.
fills :
    map (λ (c : OrderDescription Fixed). c.price) (run feed calls start).api.closed_orders
    ≡ pos 150_000 ∷ []
unfolding runs_api limit_buy
fills = refl

start-fits : FitsWords start.api.balances
unfolding runs_api
start-fits =
    FitsWords-cons (codes "GBP") (to_integer_volume (pos 1_000_000))
      ((codes "BTC", to_integer_volume (pos 15_000)) ∷ []) (omega arith)
      (FitsWords-cons (codes "BTC") (to_integer_volume (pos 15_000)) [] (omega arith) FitsWords-nil)

abbrev bought : Settlement
bought = settle (pos 1_000) market_buy (pos 200_000)

execute_order-settles_example :
    (b : Map Bytes ℕ) × IsSettled bought start.api.balances b
    × (execute_order (pos 7) (codes "1") market_buy (pos 200_000) start.api
        ≡ returns tt (record start.api {
          balances = b;
          closed_orders = to_order_description (codes "1") (pos 200_000) (pos 7) market_buy ∷ [];
          open_orders = erase (codes "1") [];
        }))
unfolding runs_api market_buy
execute_order-settles_example =
    execute_order-settles (pos 7) (codes "1") market_buy (pos 200_000) start.api 1_000_000_000_000
      start-fits (λ e. false≢true ((list_beq_iff (codes "BTC") (codes "GBP")).1 e)) refl
      (omega arith)

abbrev dear : Settlement
dear = settle start.api.fee market_buy (pos 9_000_000)

-- The account with the limit order open.
abbrev entered : World Fixed Feed
entered = run feed ((pos 7, adds limit_buy) ∷ []) start

execute_order-throws_iff_example :
    (execute_order (pos 7) (codes "1") market_buy (pos 9_000_000) start.api
      ≡ throws (insufficient_funds dear.sold_asset) start.api)
    ↔ ((lookup dear.sold_asset start.api.balances ≡ none)
        ⊎ ((v : ℕ) × (lookup dear.sold_asset start.api.balances ≡ some v) × (v < dear.sold_volume)))
execute_order-throws_iff_example =
    execute_order-throws_iff (pos 7) (codes "1") market_buy (pos 9_000_000) start.api

run-new-IsConsistent_example : IsConsistent (run feed calls start).api
run-new-IsConsistent_example =
    run-new-IsConsistent feed (pos 1_000)
      ((codes "GBP", pos 1_000_000) ∷ (codes "BTC", pos 15_000) ∷ []) start.feed calls

add_order-Added_example : Added market_buy start (add_order feed (pos 7) market_buy start)
unfolding new_paper_trade_api run
add_order-Added_example = add_order-Added feed (pos 7) market_buy start (
    run-new-IsConsistent feed (pos 1_000)
      ((codes "GBP", pos 1_000_000) ∷ (codes "BTC", pos 15_000) ∷ []) start.feed [])

try_fill_order-Tried_example :
    Tried
      (pos 7)
      (codes "1")
      limit_buy
      (pos 200_000)
      entered.api
      (try_fill_order feed (pos 200_000, true) (pos 7) (codes "1") entered.api)
unfolding runs_api limit_buy
try_fill_order-Tried_example =
    try_fill_order-Tried feed (pos 200_000, true) (pos 7) (codes "1") entered.api limit_buy refl

trade_update_handler-IsConsistent_example :
    Leaves IsConsistent (trade_update_handler feed (pos 100_000, true) (pos 8) btc_gbp entered.api)
unfolding runs_api
trade_update_handler-IsConsistent_example =
    trade_update_handler-IsConsistent feed (pos 100_000, true) (pos 8) btc_gbp entered.api
      (run-new-IsConsistent feed (pos 1_000)
        ((codes "GBP", pos 1_000_000) ∷ (codes "BTC", pos 15_000) ∷ []) start.feed
        ((pos 7, adds limit_buy) ∷ []))

-- A second limit order, below what the market reaches.
low_buy : OrderRequest Fixed
unfolding create_limit_order
low_buy = create_limit_order btc_gbp buy (pos 90_000) (pos 20_000)

abbrev two_entered : World Fixed Feed
two_entered = run feed ((pos 7, adds limit_buy) ∷ (pos 7, adds low_buy) ∷ []) start

-- The update fills the first order and leaves the second.
trade_update_handler-sweeps_example : is_due low_buy (pos 100_000) ≡ false
unfolding runs_api limit_buy low_buy
trade_update_handler-sweeps_example =
    trade_update_handler-sweeps feed (pos 100_000, true) (pos 8) btc_gbp two_entered.api
      (after two_entered.api
        (trade_update_handler feed (pos 100_000, true) (pos 8) btc_gbp two_entered.api))
      (codes "2") low_buy
      (run-new-IsConsistent feed (pos 1_000)
        ((codes "GBP", pos 1_000_000) ∷ (codes "BTC", pos 15_000) ∷ []) start.feed
        ((pos 7, adds limit_buy) ∷ (pos 7, adds low_buy) ∷ []))
      refl refl refl refl
