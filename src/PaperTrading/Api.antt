-- ===== src/PaperTrading/Api.antt =====
-- The methods that change the account: `add_order`, `add_order_confirm`, `cancel_order`, and a
-- history of calls on one object.
use marketblocks.Prelude.{
  ℤ, ◌+◌, Bytes, Option, none, some, List, [], ◌∷◌, ◌++◌, bytes_equality, lookup, emplace, erase,
}
use marketblocks.Double.{Double}
use marketblocks.Common.Run.{
  Exception, Run, returns, throws, undefined, order_not_found, and_then, after,
}
use marketblocks.Common.Text.{to_string}
use marketblocks.Trading.Constants.{closed}
use marketblocks.Trading.Pair.{TradablePair}
use marketblocks.Trading.Order.{OrderRequest, OrderConfirmation, volume_parameter, get}
use marketblocks.Websockets.Constants.{subscribed, unsubscribed}
use marketblocks.Websockets.Stream.{WebsocketStream, create_trade_sub}
use marketblocks.PaperTrading.State.{PaperTradeApi}
use marketblocks.PaperTrading.Fill.{try_fill_order}
use marketblocks.PaperTrading.Handler.{ids_of, set_ids, trade_update_handler}

module _ {W : Type 0} where
  -- The order is on the books under the next number before anything can fail.
  unfoldable pub enter_order : OrderRequest W → PaperTradeApi W → PaperTradeApi W
  unfolding ids_of set_ids
  enter_order r a =
      let id = to_string a.next_order_number in
      let entered = record a {
        next_order_number = a.next_order_number + 1;
        open_orders = emplace id r a.open_orders;
      } in
      set_ids r.pair (ids_of r.pair entered ++ (id ∷ [])) entered

  unfoldable pub cancel_order : Bytes → PaperTradeApi W → Run (PaperTradeApi W) (Unit {0})
  cancel_order id a = elim (lookup id a.open_orders) [
    | none ↦ throws (order_not_found id) a
    | some r ↦ returns tt (record a { open_orders = erase id a.open_orders })
  ]

-- The account with the stream that it subscribes on.
pub record World (W S : Type 0) : Type 0 where
  pub api : PaperTradeApi W
  pub feed : S

module _ {W S : Type 0} where
  abbrev pub on_feed : {A : Type 0} → S → Run (PaperTradeApi W) A → Run (World W S) A
  on_feed s (returns x a) = returns x (record { api = a; feed = s })
  on_feed s (throws e a) = throws e (record { api = a; feed = s })
  on_feed s undefined = undefined

module _ {W S : Type 0} ⦃d : Double W⦄ (stream : WebsocketStream S W) where
  unfoldable pub subscribe_trades : TradablePair → S → S × Option Exception
  subscribe_trades pair s = elim (stream.get_subscription_status s (create_trade_sub pair)) [
    | unsubscribed ↦ stream.subscribe s (create_trade_sub (pair ∷ []))
    | subscribed ↦ (s, none)
  ]

  unfoldable pub add_order : ℤ → OrderRequest W → World W S → Run (World W S) Bytes
  unfolding enter_order subscribe_trades
  add_order now r w =
      let id = to_string w.api.next_order_number in
      let a = enter_order r w.api in
      let s = (subscribe_trades r.pair w.feed).0 in
      elim (subscribe_trades r.pair w.feed).1 [
        | none ↦ on_feed s (and_then (try_fill_order stream s now id a) λ filled a. returns id a)
        | some e ↦ throws e (record { api = a; feed = s })
      ]

  unfoldable pub add_order_confirm :
      ℤ → OrderRequest W → World W S → Run (World W S) (OrderConfirmation W)
  add_order_confirm now r w = and_then (add_order now r w) λ id w'.
      returns
        (record {
          order_id = id;
          order_status = closed;
          original_qty = get r volume_parameter;
          filled_qty = get r volume_parameter;
          price = (stream.get_last_trade w'.feed r.pair).price;
        })
        w'

-- The calls that a strategy and the stream make; `feeds` is a change of the stream's own state, such
-- as new market data.
pub data Call (W S : Type 0) : Type 0 where
  adds : OrderRequest W → Call W S
  confirms : OrderRequest W → Call W S
  cancels : Bytes → Call W S
  updates : TradablePair → Call W S
  feeds : S → Call W S

module _ {W S : Type 0} ⦃d : Double W⦄ (stream : WebsocketStream S W) where
  unfoldable pub step : ℤ × Call W S → World W S → World W S
  step (now, adds r) w = after w (add_order stream now r w)
  step (now, confirms r) w = after w (add_order_confirm stream now r w)
  step (now, cancels id) w = after w (on_feed w.feed (cancel_order id w.api))
  step (now, updates pair) w =
      after w (on_feed w.feed (trade_update_handler stream w.feed now pair w.api))
  step (now, feeds s) w = record w { feed = s }

  unfoldable pub run : List (ℤ × Call W S) → World W S → World W S
  run [] w = w
  run (c ∷ cs) w = run cs (step c w)
