-- ===== src/Trading/FeeSchedule.antt =====
-- trading/fee_schedule.h and .cpp: `class fee_schedule`. The tiers of the `std::map` come in rising
-- order of their limits.
use marketblocks.Prelude.{[], ◌∷◌, Map, if◌then◌else◌}
use marketblocks.Double.{Double, zero_double}

module _ {W : Type 0} ⦃d : Double W⦄ where
  unfoldable pub get_tier_fee : W → Map W W → W
  get_tier_fee trading_volume [] = zero_double
  get_tier_fee trading_volume ((tier_limit, fee) ∷ tiers) =
      let rest = get_tier_fee trading_volume tiers in
      if d.le trading_volume tier_limit then fee else rest
