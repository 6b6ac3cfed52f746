-- ===== src/Exchanges/Books.antt =====
-- The loop with which the readers of several exchanges build both sides of an order book, one entry of
-- each in a round: binance_results.cpp, bybit_results.cpp and digifinex_results.cpp.
pub mod Sides
use marketblocks.Prelude.{
  ℕ, zero, suc, Option, List, [], ◌∷◌, ◌++◌, length, ◌≡◌, ◌↔◌, arith, ltb, if◌then◌else◌,
}
use marketblocks.Common.Json.{Read, value, raised, ◌>>=◌, read_each}

-- What an iterator has not visited, with the list that is built of what it has.
abbrev Side : Type 0 → Type 0 → Type 0
Side X E = List X × List E

module _ {X E : Type 0} where
  -- `if (it != end())`, with the step of the iterator
  unfoldable pub read_next : (X → Read E) → Side X E → Read (Side X E)
  read_next read ([], es) = value ([], es)
  read_next read (x ∷ xs, es) = do e ← read x; value (xs, es ++ e ∷ [])

  module _ (read_ask read_bid : X → Read E) where
    unfoldable pub read_rounds : ℕ → Side X E → Side X E → Read (Side X E × Side X E)
    unfolding read_next
    read_rounds zero asks bids = value (asks, bids)
    read_rounds (suc rounds) asks bids = do
      next_asks ← read_next read_ask asks
      next_bids ← read_next read_bid bids
      read_rounds rounds next_asks next_bids

    unfoldable pub read_sides : List X → List X → Read (List E × List E)
    unfolding read_rounds
    read_sides asks bids = do
      let rounds = if ltb (length asks) (length bids) then length bids else length asks
      sides ← read_rounds rounds (asks, []) (bids, [])
      value (sides.0.1, sides.1.1)
