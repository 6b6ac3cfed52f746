-- ===== src/Websockets/BookCache.antt =====
-- exchanges/websockets/order_book_cache.h and .cpp: `class order_book_cache`. A `std::set` is the
-- list of its entries in order; two entries of which neither is less count as one.
pub mod Ordered
use marketblocks.Prelude.{
  ℕ, ℤ, Bool, ◌&&◌, not, List, [], ◌∷◌, foldl, length, take, ltb, ◌==◌, nat_equality, if◌then◌else◌,
}
use marketblocks.Double.{Double, zero_double}
use marketblocks.Common.Math.{double_less_than, double_greater_than}
use marketblocks.Trading.Market.{OrderBookEntry, OrderBookState, OrderBookSide, ask, bid}

pub record OrderBookCache (W : Type 0) : Type 0 where
  pub last_update : ℤ
  pub asks : List (OrderBookEntry W)
  pub bids : List (OrderBookEntry W)

-- A set with the comparison of its elements.
module _ {E : Type 0} (less : E → E → Bool) where
  -- `erase(find(e))`, where there is such an element.
  unfoldable pub set_erase : E → List E → List E
  set_erase e [] = []
  set_erase e (x ∷ xs) =
      let rest = set_erase e xs in if not (less x e) && not (less e x) then xs else x ∷ rest

  unfoldable pub set_insert : E → List E → List E
  set_insert e [] = e ∷ []
  set_insert e (x ∷ xs) =
      let rest = set_insert e xs in
      if less e x then e ∷ x ∷ xs else if less x e then x ∷ rest else x ∷ xs

  -- A set made of a range.
  unfoldable pub set_of : List E → List E
  unfolding set_insert
  set_of = foldl (λ xs e. set_insert e xs) []

module _ {W : Type 0} ⦃d : Double W⦄ where
  unfoldable pub entry_less_than : OrderBookEntry W → OrderBookEntry W → Bool
  entry_less_than l r = double_less_than l.price r.price

  unfoldable pub entry_greater_than : OrderBookEntry W → OrderBookEntry W → Bool
  entry_greater_than l r = double_greater_than l.price r.price

  -- The free function `update_cache`.
  unfoldable pub update_side :
      (OrderBookEntry W → OrderBookEntry W → Bool)
      → OrderBookEntry W
      → List (OrderBookEntry W)
      → List (OrderBookEntry W)
  unfolding set_erase set_insert
  update_side less e xs =
      let without = set_erase less e xs in
      if d.lt zero_double e.volume then set_insert less e without else without

  unfoldable pub update_by_side :
      OrderBookSide → ℤ → OrderBookEntry W → OrderBookCache W → OrderBookCache W
  unfolding update_side
  update_by_side ask time e c = record c {
    last_update = time;
    asks = update_side entry_less_than e c.asks;
  }
  update_by_side bid time e c = record c {
    last_update = time;
    bids = update_side entry_greater_than e c.bids;
  }

  unfoldable pub update_cache : ℤ → OrderBookEntry W → OrderBookCache W → OrderBookCache W
  unfolding update_by_side
  update_cache time e c = update_by_side e.side time e c

  unfoldable pub from_snapshot : OrderBookState W → OrderBookCache W
  unfolding set_of
  from_snapshot s = record {
    last_update = s.time_stamp;
    asks = set_of entry_less_than s.asks;
    bids = set_of entry_greater_than s.bids;
  }

module _ {W : Type 0} where
  -- A depth of zero asks for all entries. A depth is not negative here.
  unfoldable pub snapshot : ℕ → OrderBookCache W → OrderBookState W
  snapshot depth c =
      let deepest = if ltb (length c.asks) (length c.bids) then length c.bids else length c.asks in
      let n = if depth == 0 then deepest else depth in
      record { time_stamp = c.last_update; asks = take n c.asks; bids = take n c.bids }
