-- ===== src/Trading/Pair.antt =====
-- trading/tradable_pair.h and .cpp: `class tradable_pair`.
use marketblocks.Prelude.{
  ℕ, Bytes, Bool, true, ◌&&◌, ◌||◌, ◌≡◌, ◌↔◌, ◌∷◌, ◌++◌, arith, Equality, ◌==◌, list_beq_iff,
  if◌then◌else◌, nat_equality, bytes_equality,
}
use marketblocks.Trading.Constants.{TradeAction, sell, buy}

pub record TradablePair : Type 0 where
  pub asset : Bytes
  pub price_unit : Bytes

unfoldable pub pair_contains : TradablePair → Bytes → Bool
pair_contains p ticker = p.asset == ticker || p.price_unit == ticker

-- `to_string()`
unfoldable pub pair_to_string : TradablePair → Bytes
pair_to_string p = p.asset ++ p.price_unit

-- `to_string(separator)`
unfoldable pub pair_to_string_with : TradablePair → ℕ → Bytes
unfolding pair_to_string
pair_to_string_with p separator =
    if separator == 0 then pair_to_string p else p.asset ++ (separator ∷ p.price_unit)

abbrev pub pair_beq : TradablePair → TradablePair → Bool
pair_beq p q = p.asset == q.asset && p.price_unit == q.price_unit

pub pair_beq_iff : (p q : TradablePair) → (pair_beq p q ≡ true) ↔ (p ≡ q)
pair_beq_iff p q =
    ground (arith, list_beq_iff p.asset q.asset, list_beq_iff p.price_unit q.price_unit)

instance abbrev pub pair_equality : Equality TradablePair
pair_equality = record { beq = pair_beq; beq_iff = pair_beq_iff }

unfoldable pub get_gained_asset : TradablePair → TradeAction → Bytes
get_gained_asset p buy = p.asset
get_gained_asset p sell = p.price_unit
