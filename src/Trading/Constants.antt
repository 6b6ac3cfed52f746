-- ===== src/Trading/Constants.antt =====
-- trading/trading_constants.h. A `switch` over a scoped enumeration here covers every enumerator,
-- so its `default`, which throws, is not reached.
use marketblocks.Prelude.{Bytes, Bool, true, false, ◌≡◌, ◌↔◌, arith, Equality}
use marketblocks.Common.Text.{codes}

pub data TradeAction : Type 0 where
  sell buy : TradeAction

pub data OrderStatus : Type 0 where
  opened closed partially_filled cancelled : OrderStatus

pub data OrderType : Type 0 where
  market limit stop_loss trailing_stop_loss take_profit : OrderType

unfoldable pub order_type_to_string : OrderType → Bytes
order_type_to_string market = codes "MARKET"
order_type_to_string limit = codes "LIMIT"
order_type_to_string stop_loss = codes "STOP_LOSS"
order_type_to_string trailing_stop_loss = codes "TRAILING_STOP_LOSS"
order_type_to_string take_profit = codes "TAKE_PROFIT"

unfoldable pub trade_action_to_string : TradeAction → Bytes
trade_action_to_string buy = codes "buy"
trade_action_to_string sell = codes "sell"

abbrev pub trade_action_beq : TradeAction → TradeAction → Bool
trade_action_beq sell sell = true
trade_action_beq buy buy = true
trade_action_beq _ _ = false

pub trade_action_beq_iff : (a b : TradeAction) → (trade_action_beq a b ≡ true) ↔ (a ≡ b)
trade_action_beq_iff a b = ground arith

instance abbrev pub trade_action_equality : Equality TradeAction
trade_action_equality = record { beq = trade_action_beq; beq_iff = trade_action_beq_iff }
