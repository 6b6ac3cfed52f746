-- ===== src/Common/Finance.antt =====
-- common/utils/financeutils.h.
use marketblocks.Prelude.{ℤ, pos, ◌||◌, ◌==◌, if◌then◌else◌}
use marketblocks.Double.{Double, zero_double}
use marketblocks.Trading.Constants.{TradeAction, sell, trade_action_equality}

module _ {W : Type 0} ⦃d : Double W⦄ where
  unfoldable pub calculate_cost : W → W → W
  calculate_cost price volume = d.mul price volume

  unfoldable pub calculate_volume : W → W → W
  calculate_volume price cost =
      if d.eq cost zero_double || d.eq price zero_double then zero_double else d.div cost price

  unfoldable pub calculate_asset_price : W → W → W
  calculate_asset_price cost volume =
      if d.eq cost zero_double || d.eq volume zero_double then zero_double else d.div cost volume

  unfoldable pub calculate_fee : W → W → W
  calculate_fee amount percentage = d.mul (d.mul amount percentage) (d.literal (pos 1) 2)

  unfoldable pub calculate_trade_gain : W → W → W → TradeAction → W
  calculate_trade_gain price trade_value percentage action =
      let one = d.literal (pos 1) 0 in
      let a : ℤ = if action == sell then pos 0 else pos 1 in
      let b : ℤ = if action == sell then pos 1 else pos 0 in
      d.mul (d.mul trade_value (d.sub one (d.mul percentage (d.literal (pos 1) 2))))
        (d.add (d.div (d.literal a 0) price) (d.mul price (d.literal b 0)))
