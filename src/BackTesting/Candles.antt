-- ===== src/BackTesting/Candles.antt =====
-- `get_ohlcv` of testing/back_testing/back_testing_data.cpp: candles of a longer interval, merged
-- backwards from the time of the test. An `int` interval is an integer without a bound, and `none`
-- is a read outside the vector, which C++ leaves undefined.
pub mod Closed
pub mod Merged
pub mod Reported
use marketblocks.Prelude.{
  max_ℤ, ℕ, ℤ, pos, zero, suc, ◌+◌, ◌-◌, ◌&&◌, Option, none, some, List, [], ◌∷◌, foldl, get_elem?,
  take, drop, ◌>>=◌, ◌==◌, nat_equality, ◌+ℤ◌, ◌-ℤ◌, ltb_ℤ, eqb_ℤ, if◌then◌else◌,
}
use marketblocks.Double.{Double, max_double, min_double}
use marketblocks.Common.Run.{Run, returns, or_undefined, and_then}
use marketblocks.Trading.Pair.{TradablePair}
use marketblocks.Trading.Market.{OhlcvData}
use marketblocks.BackTesting.Data.{BackTestingData, get_or_load_data, search_data}

module _ {W : Type 0} where
  -- `while (start->time_stamp() > targetTime && start != pairData.begin()) { start--; }`
  unfoldable pub rewind : List (OhlcvData W) → ℤ → ℕ → Option ℕ
  rewind os target zero = elim (get_elem? os 0) [ none ↦ none | some o ↦ some 0 ]
  rewind os target (suc i) =
      let rest = rewind os target i in
      elim (get_elem? os (suc i)) [
        | none ↦ none
        | some o ↦ if ltb_ℤ target o.time_stamp then rest else some (suc i)
      ]

  -- `if (targetTime + interval > end->time_stamp()) { ++end; }`
  unfoldable pub end_of : ℤ → ℕ → OhlcvData W → ℕ
  end_of bound last o = if ltb_ℤ o.time_stamp bound then last + 1 else last

module _ {W : Type 0} ⦃d : Double W⦄ where
  -- The body of the loop of `merge_ohlcv`.
  unfoldable pub merge_one : OhlcvData W → OhlcvData W → OhlcvData W
  merge_one m o = record m {
    high = max_double m.high o.high;
    low = min_double m.low o.low;
    close = o.close;
    volume = d.add m.volume o.volume;
  }

  -- `merge_ohlcv`: the candle at an index, with those that follow it before the end.
  unfoldable pub merge_ohlcv : List (OhlcvData W) → ℕ → ℕ → ℤ → Option (OhlcvData W)
  merge_ohlcv os start last target = elim (drop start os) [
    | [] ↦ none
    | o ∷ after ↦
        some (foldl merge_one (record o { time_stamp = target }) (take (last - (start + 1)) after))
  ]

  -- A round of the loop: the merged candle, and where the next one ends.
  unfoldable pub merge_round : List (OhlcvData W) → ℤ → ℕ → ℤ → Option (ℕ × OhlcvData W)
  merge_round os interval last target = do
    o ← get_elem? os last
    start ← rewind os target last
    merged ← merge_ohlcv os start (end_of (target +ℤ interval) last o) target
    some (start, merged)

  -- The loop, for a number of rounds.
  unfoldable pub merge_rounds : ℕ → List (OhlcvData W) → ℤ → ℤ → ℕ → ℤ → Option (List (OhlcvData W))
  merge_rounds zero os interval first last target = some []
  merge_rounds (suc n) os interval first last target =
      let target' = max_ℤ (target -ℤ interval) first in
      elim (merge_round os interval last target') [
        | none ↦ none
        | some (start, merged) ↦
            let rest = merge_rounds n os interval first start target' in
            if eqb_ℤ target' first && start == 0
            then some (merged ∷ [])
            else elim rest [ none ↦ none | some more ↦ some (merged ∷ more) ]
      ]

  -- What follows the search in the candles `o ∷ after`.
  unfoldable pub candles_at :
      ℤ → OhlcvData W → List (OhlcvData W) → ℤ → ℕ → Option ℕ → Option (List (OhlcvData W))
  candles_at time o after interval count none = some []
  candles_at time o after interval count (some i) =
      let merged = merge_rounds count (o ∷ after) interval o.time_stamp i time in
      if i == 0 && eqb_ℤ time o.time_stamp then some [] else merged

  unfoldable pub candles_from :
      TradablePair
      → ℤ
      → ℕ
      → List (OhlcvData W)
      → BackTestingData W
      → Run (BackTestingData W) (List (OhlcvData W))
  unfolding search_data candles_at
  candles_from pair interval count [] b = returns [] b
  candles_from pair interval count (o ∷ after) b =
      and_then (search_data (o ∷ after) pair b)
        λ found b'. or_undefined (candles_at b.data_time o after interval count found) b'

  unfoldable pub get_ohlcv :
      TradablePair → ℤ → ℕ → BackTestingData W → Run (BackTestingData W) (List (OhlcvData W))
  unfolding get_or_load_data candles_from
  get_ohlcv pair interval count b =
      let (os, b') = get_or_load_data pair b in candles_from pair interval count os b'
