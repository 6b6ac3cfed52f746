-- ===== src/PaperTrading/Settle.antt =====
-- What a fill does to the account: `execute_order`.
pub mod Balances
use marketblocks.Prelude.{
  ℕ, ℤ, pos, Bytes, [], ◌∷◌, ◌++◌, ◌+◌, ◌-◌, ◌%◌, ◌==◌, bytes_equality, Map, lookup_or,
  insert_or_assign, erase, if◌then◌else◌,
}
use marketblocks.Double.{Double}
use marketblocks.Common.Finance.{calculate_cost}
use marketblocks.Common.Run.{Run, returns, throws, insufficient_funds}
use marketblocks.Trading.Constants.{buy, trade_action_equality}
use marketblocks.Trading.Order.{OrderRequest, volume_parameter, get}
use marketblocks.PaperTrading.State.{
  PaperTradeApi, volume_mod, to_integer_volume, to_order_description, has_sufficient_funds,
}

-- The two sides of a fill: what is gained and what is paid.
pub record Settlement : Type 0 where
  pub gained_asset : Bytes
  pub sold_asset : Bytes
  pub gain_volume : ℕ
  pub sold_volume : ℕ

-- `balances[gained] += gain; balances[sold] -= paid`, on unsigned words.
unfoldable pub transfer : Settlement → Map Bytes ℕ → Map Bytes ℕ
transfer s balances =
    let gained =
      insert_or_assign s.gained_asset
        ((lookup_or s.gained_asset 0 balances + s.gain_volume) % volume_mod) balances in
    insert_or_assign s.sold_asset
      ((lookup_or s.sold_asset 0 gained + volume_mod - s.sold_volume) % volume_mod) gained

module _ {W : Type 0} ⦃d : Double W⦄ where
  unfoldable pub settle : W → OrderRequest W → W → Settlement
  settle fee_rate r fill_price =
      let volume = get r volume_parameter in
      let cost = calculate_cost fill_price volume in
      let fee = d.mul (d.mul cost fee_rate) (d.literal (pos 1) 2) in
      if r.action == buy
      then record {
        gained_asset = r.pair.asset;
        sold_asset = r.pair.price_unit;
        gain_volume = to_integer_volume volume;
        sold_volume = to_integer_volume (d.add cost fee);
      }
      else record {
        gained_asset = r.pair.price_unit;
        sold_asset = r.pair.asset;
        gain_volume = to_integer_volume (d.sub cost fee);
        sold_volume = to_integer_volume volume;
      }

  unfoldable pub execute_order :
      ℤ → Bytes → OrderRequest W → W → PaperTradeApi W → Run (PaperTradeApi W) (Unit {0})
  execute_order now id r fill_price a =
      let s = settle a.fee r fill_price in
      if has_sufficient_funds a s.sold_asset s.sold_volume
      then returns tt (record a {
        balances = transfer s a.balances;
        closed_orders = a.closed_orders ++ (to_order_description id fill_price now r ∷ []);
        open_orders = erase id a.open_orders;
      })
      else throws (insufficient_funds s.sold_asset) a
