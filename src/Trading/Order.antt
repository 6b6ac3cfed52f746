-- ===== src/Trading/Order.antt =====
-- trading/order_request.h and .cpp, order_description.h, order_confirmation.h.
use marketblocks.Prelude.{
  ℤ, Bytes, Bool, true, false, ◌≡◌, ◌↔◌, [], ◌∷◌, arith, Equality, Map, lookup_or,
}
use marketblocks.Double.{Double, zero_double}
use marketblocks.Trading.Constants.{
  TradeAction, OrderStatus, OrderType, market, limit, stop_loss, trailing_stop_loss,
}
use marketblocks.Trading.Pair.{TradablePair}

pub data OrderRequestParameter : Type 0 where
  asset_price stop_price volume_parameter trailing_delta : OrderRequestParameter

abbrev pub parameter_beq : OrderRequestParameter → OrderRequestParameter → Bool
parameter_beq asset_price asset_price = true
parameter_beq stop_price stop_price = true
parameter_beq volume_parameter volume_parameter = true
parameter_beq trailing_delta trailing_delta = true
parameter_beq _ _ = false

pub parameter_beq_iff : (a b : OrderRequestParameter) → (parameter_beq a b ≡ true) ↔ (a ≡ b)
parameter_beq_iff a b = ground arith

instance abbrev pub parameter_equality : Equality OrderRequestParameter
parameter_equality = record { beq = parameter_beq; beq_iff = parameter_beq_iff }

pub record OrderRequest (W : Type 0) : Type 0 where
  pub order_type : OrderType
  pub pair : TradablePair
  pub action : TradeAction
  pub parameters : Map OrderRequestParameter W

pub record OrderDescription (W : Type 0) : Type 0 where
  pub time_stamp : ℤ
  pub order_id : Bytes
  pub order_type : OrderType
  pub pair_name : Bytes
  pub action : TradeAction
  pub price : W
  pub volume : W

pub record OrderConfirmation (W : Type 0) : Type 0 where
  pub order_id : Bytes
  pub order_status : OrderStatus
  pub original_qty : W
  pub filled_qty : W
  pub price : W

module _ {W : Type 0} ⦃d : Double W⦄ where
  -- `order_request::get`: a parameter that is not set is 0.0.
  unfoldable pub get : OrderRequest W → OrderRequestParameter → W
  unfolding lookup_or
  get r parameter = lookup_or parameter zero_double r.parameters

module _ {W : Type 0} where
  unfoldable pub create_limit_order : TradablePair → TradeAction → W → W → OrderRequest W
  create_limit_order pair action price volume = record {
    order_type = limit;
    pair = pair;
    action = action;
    parameters = (asset_price, price) ∷ (volume_parameter, volume) ∷ [];
  }

  unfoldable pub create_market_order : TradablePair → TradeAction → W → OrderRequest W
  create_market_order pair action volume = record {
    order_type = market;
    pair = pair;
    action = action;
    parameters = (volume_parameter, volume) ∷ [];
  }

  unfoldable pub create_stop_loss_order : TradablePair → TradeAction → W → W → W → OrderRequest W
  create_stop_loss_order pair action stop volume limit_price = record {
    order_type = stop_loss;
    pair = pair;
    action = action;
    parameters = (volume_parameter, volume) ∷ (stop_price, stop) ∷ (asset_price, limit_price) ∷ [];
  }

  unfoldable pub create_trailing_stop_loss_order :
      TradablePair → TradeAction → W → W → W → OrderRequest W
  create_trailing_stop_loss_order pair action delta volume limit_price = record {
    order_type = trailing_stop_loss;
    pair = pair;
    action = action;
    parameters =
        (volume_parameter, volume) ∷ (trailing_delta, delta) ∷ (asset_price, limit_price) ∷ [];
  }
