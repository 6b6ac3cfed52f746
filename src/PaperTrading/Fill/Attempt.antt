-- ===== src/PaperTrading/Fill/Attempt.antt =====
-- What an attempt to fill an order does to the account, on every branch.
use marketblocks.Prelude.{
  ℤ, Bytes, Bool, true, false, Option, some, none, [], ◌∷◌, ◌++◌, ◌≡◌, inl, inr, refl, ◌==◌,
  bytes_equality, Map, lookup, erase, Bool-cases,
}
use marketblocks.Double.{Double, zero_double}
use marketblocks.Common.Run.{Run, returns, throws, undefined}
use marketblocks.Trading.Order.{OrderRequest}
use marketblocks.Websockets.Stream.{WebsocketStream}
use marketblocks.PaperTrading.State.{PaperTradeApi, to_order_description, has_sufficient_funds}
use marketblocks.PaperTrading.Settle.{settle, transfer, execute_order}
use marketblocks.PaperTrading.Fill.Price.{Fair, fill_by_type-Fair, fill_by_type-others}
use marketblocks.PaperTrading.Fill.{fill_by_type, finish_fill, fill_at, try_fill_order}

module _ {W : Type 0} ⦃d : Double W⦄ where
  -- The trailing limits of the other orders are as before.
  abbrev pub KeepsOthers : Bytes → PaperTradeApi W → PaperTradeApi W → Type 0
  KeepsOthers id a a' =
      (j : Bytes)
      → (id == j) ≡ false
      → lookup j a'.trailing_order_limits ≡ lookup j a.trailing_order_limits

  -- Nothing but trailing limits has changed.
  abbrev pub IsPending : Bytes → PaperTradeApi W → PaperTradeApi W → Type 0
  IsPending id a a' =
      (a' ≡ record a { trailing_order_limits = a'.trailing_order_limits }) × KeepsOthers id a a'

  -- The order has been filled at the price `p`, and has left the open orders for the closed ones.
  abbrev pub IsFilled :
      ℤ → Bytes → OrderRequest W → W → PaperTradeApi W → W → PaperTradeApi W → Type 0
  IsFilled now id r price a p a' =
      (a' ≡ record a {
        trailing_order_limits = a'.trailing_order_limits;
        balances = transfer (settle a.fee r p) a.balances;
        open_orders = erase id a.open_orders;
        closed_orders = a.closed_orders ++ (to_order_description id p now r ∷ []);
      })
      × Fair r.order_type r price p
      × (d.eq price zero_double ≡ false)
      × KeepsOthers id a a'

  abbrev pub Tried :
      ℤ → Bytes → OrderRequest W → W → PaperTradeApi W → Run (PaperTradeApi W) Bool → Type 0
  Tried now id r price a (returns true a') = (p : W) × IsFilled now id r price a p a'
  Tried now id r price a (returns false a') = IsPending id a a'
  Tried now id r price a (throws e a') = IsPending id a a'
  Tried now id r price a undefined = ⊥

  finish_fill-Tried :
      (now : ℤ) (id : Bytes) (r : OrderRequest W) (price : W) (a : PaperTradeApi W)
      (decision : Option W) (limits : Map Bytes W)
      → d.eq price zero_double ≡ false
      → ((p : W) → decision ≡ some p → Fair r.order_type r price p)
      → ((j : Bytes) → (id == j) ≡ false → lookup j limits ≡ lookup j a.trailing_order_limits)
      → Tried now id r price a
          (finish_fill now id r decision (record a { trailing_order_limits = limits }))
  unfolding finish_fill execute_order
  finish_fill-Tried now id r price a none limits nonzero fair others = (refl, others)
  finish_fill-Tried now id r price a (some p) limits nonzero fair others =
      let s = settle a.fee r p in
      let b = record a { trailing_order_limits = limits } in
      elim (Bool-cases (has_sufficient_funds b s.sold_asset s.sold_volume)) [
        | inl funded ↦ rw funded (p, (refl, fair p refl, nonzero, others))
        | inr short ↦ rw short (refl, others)
      ]

  fill_at-Tried :
      (now : ℤ) (id : Bytes) (r : OrderRequest W) (price : W) (a : PaperTradeApi W)
      → Tried now id r price a (fill_at now id r price a)
  unfolding fill_at
  fill_at-Tried now id r price a =
      let decided = fill_by_type r.order_type id r price a.trailing_order_limits in
      elim (Bool-cases (d.eq price zero_double)) [
        | inl zero ↦ rw zero (refl, λ j h. refl)
        | inr nonzero ↦ rw nonzero (
            finish_fill-Tried now id r price a decided.0 decided.1 nonzero
              (fill_by_type-Fair r.order_type id r price a.trailing_order_limits)
              λ j. fill_by_type-others r.order_type id j r price a.trailing_order_limits)
      ]

  pub try_fill_order-fill_at :
      {S : Type 0} (stream : WebsocketStream S W) (s : S) (now : ℤ) (id : Bytes)
      (a : PaperTradeApi W) (r : OrderRequest W)
      → lookup id a.open_orders ≡ some r
      → try_fill_order stream s now id a ≡ fill_at now id r (stream.get_last_trade s r.pair).price a
  unfolding try_fill_order
  try_fill_order-fill_at stream s now id a r e = rw (e, try_fill_order)

  -- An attempt on an open order fills it, at a price that its type allows while the market stands
  -- at the last trade, moving it from the open to the closed orders and settling it, or returns
  -- false or throws with nothing changed but the trailing limit of this order.
  pub try_fill_order-Tried :
      {S : Type 0} (stream : WebsocketStream S W) (s : S) (now : ℤ) (id : Bytes)
      (a : PaperTradeApi W) (r : OrderRequest W)
      → lookup id a.open_orders ≡ some r
      → Tried now id r (stream.get_last_trade s r.pair).price a (try_fill_order stream s now id a)
  try_fill_order-Tried stream s now id a r e =
      rw (try_fill_order-fill_at stream s now id a r e)
        (fill_at-Tried now id r (stream.get_last_trade s r.pair).price a)
