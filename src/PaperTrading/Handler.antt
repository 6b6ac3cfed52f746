-- ===== src/PaperTrading/Handler.antt =====
-- `trade_update_handler`: the loop over the orders of a pair, by index over a vector that it erases
-- from. A round returns the index of the next one.
use marketblocks.Prelude.{
  ℕ, ℤ, zero, suc, ◌+◌, Bytes, Bool, true, false, none, some, List, [], length, get_elem?, erase_at,
  bytes_equality, lookup_or, contains_key, insert_or_assign, emplace, if◌then◌else◌,
}
use marketblocks.Double.{Double}
use marketblocks.Common.Run.{Run, returns, throws, undefined, and_then}
use marketblocks.Trading.Pair.{TradablePair, pair_equality}
use marketblocks.Websockets.Stream.{WebsocketStream}
use marketblocks.PaperTrading.State.{PaperTradeApi}
use marketblocks.PaperTrading.Fill.{try_fill_order}

module _ {W : Type 0} where
  unfoldable pub ids_of : TradablePair → PaperTradeApi W → List Bytes
  ids_of pair a = lookup_or pair [] a.open_orders_by_pair

  unfoldable pub set_ids : TradablePair → List Bytes → PaperTradeApi W → PaperTradeApi W
  set_ids pair ids a = record a {
    open_orders_by_pair = insert_or_assign pair ids a.open_orders_by_pair;
  }

  -- `orderIds.erase(it)`
  unfoldable pub drop_id : TradablePair → ℕ → PaperTradeApi W → PaperTradeApi W
  drop_id pair index a = set_ids pair (erase_at (ids_of pair a) index) a

  -- What follows the call of `try_fill_order` in the condition of the loop's `if`.
  unfoldable pub after_fill : TradablePair → ℕ → Bool → PaperTradeApi W → Run (PaperTradeApi W) ℕ
  after_fill pair index true a = returns index (drop_id pair index a)
  after_fill pair index false a = returns (index + 1) a

module _ {W S : Type 0} ⦃d : Double W⦄ (stream : WebsocketStream S W) (s : S) (now : ℤ) where
  unfoldable pub handle_order : TradablePair → Bytes → ℕ → PaperTradeApi W → Run (PaperTradeApi W) ℕ
  handle_order pair id index a =
      if contains_key id a.open_orders
      then and_then (try_fill_order stream s now id a) (after_fill pair index)
      else returns index (drop_id pair index a)

  unfoldable pub handle_round : TradablePair → ℕ → PaperTradeApi W → Run (PaperTradeApi W) ℕ
  handle_round pair index a = elim (get_elem? (ids_of pair a) index) [
    | none ↦ undefined
    | some id ↦ handle_order pair id index a
  ]

  unfoldable pub handle_rounds :
      ℕ → TradablePair → ℕ → PaperTradeApi W → Run (PaperTradeApi W) (Unit {0})
  handle_rounds zero pair index a = returns tt a
  handle_rounds (suc rounds) pair index a = elim (handle_round pair index a) [
    | returns index' a' ↦ handle_rounds rounds pair index' a'
    | throws e a' ↦ throws e a'
    | undefined ↦ undefined
  ]

  unfoldable pub trade_update_handler :
      TradablePair → PaperTradeApi W → Run (PaperTradeApi W) (Unit {0})
  trade_update_handler pair a =
      let a' = record a { open_orders_by_pair = emplace pair [] a.open_orders_by_pair } in
      handle_rounds (length (ids_of pair a')) pair 0 a'
