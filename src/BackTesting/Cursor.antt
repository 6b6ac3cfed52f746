-- ===== src/BackTesting/Cursor.antt =====
-- `get_iterator` of testing/back_testing/back_testing_data.cpp: the candle of a moment, found from
-- the place where the last search of the pair ended. An iterator of a vector is an index, and
-- `end()` is the length.
pub mod Locate
use marketblocks.Prelude.{
  ℕ, ℤ, zero, suc, ◌+◌, Option, none, some, List, [], ◌∷◌, length, drop, ltb_ℤ, eqb_ℤ, Map,
  lookup_or, insert_or_assign, if◌then◌else◌,
}
use marketblocks.Common.Run.{Run, returns, undefined}
use marketblocks.Trading.Pair.{TradablePair, pair_equality}
use marketblocks.Trading.Market.{OhlcvData}

abbrev pub IteratorCache : Type 0
IteratorCache = Map TradablePair ℕ

-- `--it`, which is undefined at the beginning.
abbrev pub step_back : ℕ → Option ℕ
step_back zero = none
step_back (suc i) = some i

module _ {W : Type 0} where
  -- The loop, over the candles from an index on.
  unfoldable pub scan : ℤ → List (OhlcvData W) → ℕ → Option ℕ
  scan time [] i = some i
  scan time (o ∷ os) i =
      let rest = scan time os (i + 1) in
      if ltb_ℤ time o.time_stamp
      then step_back i
      else if eqb_ℤ o.time_stamp time
      then some i
      else rest

  -- The time of the last candle.
  abbrev pub last_stamp : ℤ → List (OhlcvData W) → ℤ
  last_stamp time [] = time
  last_stamp time (o ∷ os) = last_stamp o.time_stamp os

  unfoldable pub get_iterator :
      List (OhlcvData W) → TradablePair → ℤ → IteratorCache → Run IteratorCache (Option ℕ)
  unfolding scan
  get_iterator [] pair time cache = returns none cache
  get_iterator (o ∷ os) pair time cache =
      let start = lookup_or pair 0 cache in
      if ltb_ℤ time o.time_stamp
      then returns none cache
      else if ltb_ℤ (last_stamp o.time_stamp os) time
      then returns (some (length os)) cache
      else elim (scan time (drop start (o ∷ os)) start) [
        | none ↦ undefined
        | some i ↦ returns (some i) (insert_or_assign pair i cache)
      ]
