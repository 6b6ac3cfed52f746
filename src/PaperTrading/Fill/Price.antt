-- ===== src/PaperTrading/Fill/Price.antt =====
-- The decision to fill: at which prices, and which trailing limits it touches.
use marketblocks.Prelude.{
  Bytes, true, false, some, ◌≡◌, inl, inr, refl, sym, arith, ◌==◌, bytes_equality, Map, lookup,
  insert_or_assign, emplace, contains_key, lookup_or, lookup-emplace_other, lookup-insert_other,
  lookup-erase_other, Bool-cases, if◌then◌else◌,
}
use mathlib.Core.Path.{subst}
use marketblocks.Double.{Double, ◌≼◌, zero_double}
use marketblocks.Trading.Constants.{
  TradeAction, sell, buy, OrderType, market, limit, stop_loss, trailing_stop_loss, take_profit,
}
use marketblocks.Trading.Order.{OrderRequest, asset_price, stop_price, get}
use marketblocks.PaperTrading.Fill.{
  should_close_limit_order, should_close_stop_loss_order, fill_trailing, fill_by_type,
  should_close_trailing_stop_loss_order,
}

module _ {W : Type 0} ⦃d : Double W⦄ where
  -- The market has reached the price of a limit order, or of a stop order.
  abbrev pub ReachesLimit : TradeAction → W → W → Type 0
  ReachesLimit buy price bound = price ≼ bound
  ReachesLimit sell price bound = bound ≼ price

  abbrev pub ReachesStop : TradeAction → W → W → Type 0
  ReachesStop buy price bound = bound ≼ price
  ReachesStop sell price bound = price ≼ bound

  -- The prices at which an order may be filled while the market stands at `price`.
  abbrev pub Fair : OrderType → OrderRequest W → W → W → Type 0
  Fair market r price p = p ≡ price
  Fair limit r price p = (p ≡ get r asset_price) × ReachesLimit r.action price p
  Fair stop_loss r price p = (p ≡ get r stop_price) × ReachesStop r.action price p
  Fair trailing_stop_loss r price p = p ≡ price
  Fair take_profit r price p = ⊥

  limit-Reaches :
      (action : TradeAction) (r : OrderRequest W) (price : W)
      → r.action ≡ action
      → should_close_limit_order r price ≡ true
      → ReachesLimit action price (get r asset_price)
  unfolding should_close_limit_order
  limit-Reaches buy r price e h = ground arith
  limit-Reaches sell r price e h = ground arith

  stop-Reaches :
      (action : TradeAction) (r : OrderRequest W) (price : W)
      → r.action ≡ action
      → should_close_stop_loss_order r price ≡ true
      → ReachesStop action price (get r stop_price)
  unfolding should_close_stop_loss_order
  stop-Reaches buy r price e h = ground arith
  stop-Reaches sell r price e h = ground arith

  fill_trailing-price :
      (id : Bytes) (r : OrderRequest W) (price : W) (limits : Map Bytes W) {p : W}
      → (fill_trailing id r price limits).0 ≡ some p
      → p ≡ price
  unfolding fill_trailing
  fill_trailing-price id r price limits h = ground arith

  pub fill_by_type-Fair :
      (t : OrderType) (id : Bytes) (r : OrderRequest W) (price : W) (limits : Map Bytes W) (p : W)
      → (fill_by_type t id r price limits).0 ≡ some p
      → Fair t r price p
  unfolding fill_by_type
  fill_by_type-Fair market id r price limits p h = ground arith
  fill_by_type-Fair limit id r price limits p h =
      elim (Bool-cases (should_close_limit_order r price)) [
        | inl hit ↦
            let same : p ≡ get r asset_price = ground arith in
            (
              same,
              subst (λ q. ReachesLimit r.action price q) (sym same)
                  (limit-Reaches r.action r price refl hit),
            )
        | inr miss ↦ absurd (ground arith)
      ]
  fill_by_type-Fair stop_loss id r price limits p h =
      elim (Bool-cases (should_close_stop_loss_order r price)) [
        | inl hit ↦
            let same : p ≡ get r stop_price = ground arith in
            (
              same,
              subst (λ q. ReachesStop r.action price q) (sym same)
                  (stop-Reaches r.action r price refl hit),
            )
        | inr miss ↦ absurd (ground arith)
      ]
  fill_by_type-Fair trailing_stop_loss id r price limits p h =
      fill_trailing-price id r price limits h
  fill_by_type-Fair take_profit id r price limits p h = cc

  fill_trailing-others :
      (id j : Bytes) (r : OrderRequest W) (price : W) (limits : Map Bytes W)
      → (id == j) ≡ false
      → lookup j (fill_trailing id r price limits).1 ≡ lookup j limits
  unfolding fill_trailing
  fill_trailing-others id j r price limits h =
      let known = if contains_key id limits then limits else emplace id price limits in
      let (extremum, fill) =
        should_close_trailing_stop_loss_order r price (lookup_or id zero_double known) in
      ground (
        arith,
        lookup-emplace_other id j price limits,
        lookup-insert_other id j extremum known,
        lookup-erase_other id j (insert_or_assign id extremum known),
      )

  pub fill_by_type-others :
      (t : OrderType) (id j : Bytes) (r : OrderRequest W) (price : W) (limits : Map Bytes W)
      → (id == j) ≡ false
      → lookup j (fill_by_type t id r price limits).1 ≡ lookup j limits
  unfolding fill_by_type
  fill_by_type-others market id j r price limits h = refl
  fill_by_type-others limit id j r price limits h = refl
  fill_by_type-others stop_loss id j r price limits h = refl
  fill_by_type-others trailing_stop_loss id j r price limits h =
      fill_trailing-others id j r price limits h
  fill_by_type-others take_profit id j r price limits h = refl
