-- ===== src/PaperTrading/Fill.antt =====
-- When an order is filled and at which price: the free functions of
-- the source and `try_fill_order`.
pub mod Price
pub mod Attempt
use marketblocks.Prelude.{
  ℤ, pos, Bytes, Bool, true, false, ◌&&◌, ◌||◌, Option, none, some, ◌==◌, bytes_equality, Map,
  lookup, lookup_or, contains_key, insert_or_assign, emplace, erase, if◌then◌else◌,
}
use marketblocks.Double.{Double, zero_double, max_double, min_double}
use marketblocks.Common.Run.{Run, returns, throws, out_of_range, and_then}
use marketblocks.Trading.Constants.{
  sell, buy, OrderType, market, limit, stop_loss, trailing_stop_loss, take_profit,
  trade_action_equality,
}
use marketblocks.Trading.Order.{OrderRequest, asset_price, stop_price, trailing_delta, get}
use marketblocks.Websockets.Stream.{WebsocketStream}
use marketblocks.PaperTrading.Settle.{execute_order}
use marketblocks.PaperTrading.State.{PaperTradeApi}

module _ {W : Type 0} ⦃d : Double W⦄ where
  unfoldable pub should_close_limit_order : OrderRequest W → W → Bool
  should_close_limit_order r price =
      let order_price = get r asset_price in
      (r.action == buy && d.le price order_price) || (r.action == sell && d.le order_price price)

  unfoldable pub should_close_stop_loss_order : OrderRequest W → W → Bool
  should_close_stop_loss_order r price =
      let order_price = get r stop_price in
      (r.action == buy && d.le order_price price) || (r.action == sell && d.le price order_price)

  -- The extremum that the last argument refers to afterwards, and the answer.
  unfoldable pub should_close_trailing_stop_loss_order : OrderRequest W → W → W → W × Bool
  should_close_trailing_stop_loss_order r price extremum =
      let delta = get r trailing_delta in
      let one = d.literal (pos 1) 0 in
      let lowest = min_double extremum price in
      let highest = max_double extremum price in
      if r.action == buy
      then (lowest, d.le (d.mul lowest (d.add one delta)) price)
      else (highest, d.le price (d.mul highest (d.sub one delta)))

  -- What the `switch` of `try_fill_order` decides: the fill price, if there is a fill, and the limits
  -- of the trailing orders after it.
  unfoldable pub fill_trailing : Bytes → OrderRequest W → W → Map Bytes W → Option W × Map Bytes W
  fill_trailing id r price limits =
      let known = if contains_key id limits then limits else emplace id price limits in
      let (extremum, fill) =
        should_close_trailing_stop_loss_order r price (lookup_or id zero_double known) in
      let moved = insert_or_assign id extremum known in
      if fill then (some price, erase id moved) else (none, moved)

  unfoldable pub fill_by_type :
      OrderType → Bytes → OrderRequest W → W → Map Bytes W → Option W × Map Bytes W
  unfolding fill_trailing
  fill_by_type market id r price limits = (some price, limits)
  fill_by_type limit id r price limits =
      (if should_close_limit_order r price then some (get r asset_price) else none, limits)
  fill_by_type stop_loss id r price limits =
      (if should_close_stop_loss_order r price then some (get r stop_price) else none, limits)
  fill_by_type trailing_stop_loss id r price limits = fill_trailing id r price limits
  fill_by_type take_profit id r price limits = (none, limits)

  unfoldable pub finish_fill :
      ℤ → Bytes → OrderRequest W → Option W → PaperTradeApi W → Run (PaperTradeApi W) Bool
  finish_fill now id r none a = returns false a
  finish_fill now id r (some fill_price) a =
      and_then (execute_order now id r fill_price a) λ _ a'. returns true a'

  unfoldable pub fill_at :
      ℤ → Bytes → OrderRequest W → W → PaperTradeApi W → Run (PaperTradeApi W) Bool
  fill_at now id r price a =
      let (decision, limits) = fill_by_type r.order_type id r price a.trailing_order_limits in
      if d.eq price zero_double
      then returns false a
      else finish_fill now id r decision (record a { trailing_order_limits = limits })

  -- `try_fill_order`, with the stream that it asks for the last trade and the time of the call.
  unfoldable pub try_fill_order :
      {S : Type 0}
      → WebsocketStream S W
      → S
      → ℤ
      → Bytes
      → PaperTradeApi W
      → Run (PaperTradeApi W) Bool
  try_fill_order stream s now id a = elim (lookup id a.open_orders) [
    | none ↦ throws out_of_range a
    | some r ↦ fill_at now id r (stream.get_last_trade s r.pair).price a
  ]
