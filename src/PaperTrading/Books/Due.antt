-- ===== src/PaperTrading/Books/Due.antt =====
-- Which open orders the market fills at a price, and an attempt on one that it does not fill.
use marketblocks.Prelude.{
  ℕ, ℤ, zero, suc, Bytes, Bool, true, false, Option, some, none, List, [], ◌∷◌, ◌<◌, ◌≡◌, inl, inr,
  refl, ap, arith, ◌==◌, bytes_equality, Map, length, get_elem?, erase_at, elem, Bool-cases,
}
use marketblocks.Double.{Double, zero_double}
use marketblocks.Common.Run.{Run, returns, throws, undefined, and_then}
use marketblocks.Trading.Constants.{
  OrderType, market, limit, stop_loss, trailing_stop_loss, take_profit,
}
use marketblocks.Trading.Pair.{pair_equality}
use marketblocks.Trading.Order.{OrderRequest}
use marketblocks.PaperTrading.State.{PaperTradeApi}
use marketblocks.PaperTrading.Settle.{execute_order}
use marketblocks.PaperTrading.Fill.{
  should_close_limit_order, should_close_stop_loss_order, fill_by_type, finish_fill, fill_at,
}

pub get_elem?-erase_at_before :
    {A : Type 0} (xs : List A) (i j : ℕ) → j < i → get_elem? (erase_at xs i) j ≡ get_elem? xs j
get_elem?-erase_at_before [] i j h = refl
get_elem?-erase_at_before (x ∷ xs) zero j h = absurd (omega arith)
get_elem?-erase_at_before (x ∷ xs) (suc i) zero h = refl
get_elem?-erase_at_before (x ∷ xs) (suc i) (suc j) h =
    get_elem?-erase_at_before xs i j (omega arith)

-- An element stands at some position.
pub elem-position :
    (id : Bytes) (xs : List Bytes)
    → elem id xs ≡ true
    → (j : ℕ) × (j < length xs) × (get_elem? xs j ≡ some id)
elem-position id [] h = ground arith
elem-position id (x ∷ xs) h = elim (Bool-cases (x == id)) [
  | inl same ↦ (0, omega arith, ap some ((bytes_equality.beq_iff x id).0 same))
  | inr differ ↦ let (j, p, q) = elem-position id xs (ground arith) in (suc j, omega arith, q)
]

never_false :
    {S A : Type 0} (m : Run S A) (s : S) → and_then m (λ x t. returns true t) ≡ returns false s → ⊥
never_false (returns x t) s h = cc
never_false (throws e t) s h = cc
never_false undefined s h = cc

module _ {W : Type 0} ⦃d : Double W⦄ where
  abbrev pub due_by_type : OrderType → OrderRequest W → W → Bool
  due_by_type market r price = true
  due_by_type limit r price = should_close_limit_order r price
  due_by_type stop_loss r price = should_close_stop_loss_order r price
  due_by_type trailing_stop_loss r price = false
  due_by_type take_profit r price = false

  -- The orders that are to be filled at this price; the price alone does not tell it of trailing orders.
  abbrev pub is_due : OrderRequest W → W → Bool
  is_due r price = due_by_type r.order_type r price

  fill_by_type-none :
      (type : OrderType) (id : Bytes) (r : OrderRequest W) (price : W) (limits : Map Bytes W)
      → (fill_by_type type id r price limits).0 ≡ none
      → due_by_type type r price ≡ false
  unfolding fill_by_type
  fill_by_type-none market id r price limits h = ground arith
  fill_by_type-none limit id r price limits h = ground arith
  fill_by_type-none stop_loss id r price limits h = ground arith
  fill_by_type-none trailing_stop_loss id r price limits h = refl
  fill_by_type-none take_profit id r price limits h = refl

  finish_fill-none :
      (now : ℤ) (id : Bytes) (r : OrderRequest W) (decision : Option W) (a a' : PaperTradeApi W)
      → finish_fill now id r decision a ≡ returns false a'
      → decision ≡ none
  unfolding finish_fill
  finish_fill-none now id r none a a' h = refl
  finish_fill-none now id r (some p) a a' h = absurd (never_false (execute_order now id r p a) a' h)

  -- An attempt that does not fill an order was on one that is not due, where there is a price.
  pub fill_at-false :
      (now : ℤ) (id : Bytes) (r : OrderRequest W) (price : W) (a a' : PaperTradeApi W)
      → d.eq price zero_double ≡ false
      → fill_at now id r price a ≡ returns false a'
      → is_due r price ≡ false
  unfolding fill_at
  fill_at-false now id r price a a' nonzero h =
      let decided = fill_by_type r.order_type id r price a.trailing_order_limits in
      fill_by_type-none r.order_type id r price a.trailing_order_limits (
        finish_fill-none now id r decided.0 (record a { trailing_order_limits = decided.1 }) a'
          (rw nonzero at h))
