-- ===== src/BackTesting/Candles/Reported.antt =====
-- What `get_ohlcv` reports of a sound object.
use marketblocks.Prelude.{
  ℕ, ℤ, Option, none, some, List, [], ◌∷◌, ◌≡◌, refl, ◌⊎◌, inl, inr, arith, ◌≤ℤ◌, eqb_ℤ, ◌==◌,
  nat_equality, ◌&&◌, Bool-cases, lookup,
}
use mathlib.Core.Path.{subst}
use marketblocks.Double.{Double}
use marketblocks.Common.Run.{Run, returns, throws, undefined, or_undefined, and_then}
use marketblocks.Trading.Pair.{TradablePair, pair_equality}
use marketblocks.Trading.Market.{OhlcvData}
use marketblocks.BackTesting.Cursor.Locate.{Located}
use marketblocks.BackTesting.Data.{BackTestingData, get_or_load_data, search_data}
use marketblocks.BackTesting.Data.Queries.{
  IsSound, Searched, candles_of, load-IsLoaded, search_data-Searched,
}
use marketblocks.BackTesting.Candles.{candles_at, candles_from, get_ohlcv}
use marketblocks.BackTesting.Candles.Merged.{Merged, merge_rounds-Merged, get_elem?-lt}

module _ {W : Type 0} where
  -- Nothing at or before the first candle, and after it merged candles, looked for from the last
  -- candle that is not later than the time.
  abbrev pub Reports : ℤ → ℤ → ℕ → List (OhlcvData W) → List (OhlcvData W) → Type 0
  Reports time interval count [] ms = ms ≡ []
  Reports time interval count (o ∷ after) ms =
      ((time ≤ℤ o.time_stamp) × (ms ≡ []))
      ⊎ ((i : ℕ) × Located time (o ∷ after) (some i)
          × Merged count (o ∷ after) interval o.time_stamp i time ms)

  abbrev pub Reported :
      ℤ → ℤ → ℕ → List (OhlcvData W) → Run (BackTestingData W) (List (OhlcvData W)) → Type 0
  Reported time interval count os (returns ms b) = Reports time interval count os ms × IsSound b
  Reported time interval count os (throws e b) = ⊥
  Reported time interval count os undefined = ⊥

module _ {W : Type 0} ⦃d : Double W⦄ where
  candles_at-Reports :
      (time : ℤ) (o : OhlcvData W) (after : List (OhlcvData W)) (interval : ℤ) (count : ℕ)
      (found : Option ℕ)
      → Located time (o ∷ after) found
      → (ms : List (OhlcvData W)) × (candles_at time o after interval count found ≡ some ms)
        × Reports time interval count (o ∷ after) ms
  unfolding candles_at
  candles_at-Reports time o after interval count none early =
      ([], refl, inl (omega (arith, early.0), refl))
  candles_at-Reports time o after interval count (some i) latest =
      let (p, at, behind) = latest.0 in
      let (ms, made, merged) =
        merge_rounds-Merged count (o ∷ after) interval o.time_stamp i time
          (get_elem?-lt (o ∷ after) i p at) in
      elim (Bool-cases (i == 0 && eqb_ℤ time o.time_stamp)) [
        | inl start ↦ ([], ground arith, inl (ground arith, refl))
        | inr past ↦ (ms, ground (arith, made), inr (i, latest, merged))
      ]

  Reported-candles_at :
      (time : ℤ) (o : OhlcvData W) (after : List (OhlcvData W)) (interval : ℤ) (count : ℕ)
      (m : Run (BackTestingData W) (Option ℕ))
      → Searched (o ∷ after) time m
      → Reported time interval count
          (o ∷ after)
          (and_then m λ found b. or_undefined (candles_at time o after interval count found) b)
  Reported-candles_at time o after interval count (returns found b) (located, v) =
      let (ms, made, reports) = candles_at-Reports time o after interval count found located in
      rw made (reports, v)
  Reported-candles_at time o after interval count (throws e b) h = h
  Reported-candles_at time o after interval count undefined h = h

  candles_from-Reported :
      (pair : TradablePair) (interval : ℤ) (count : ℕ) (os : List (OhlcvData W))
      (b : BackTestingData W)
      → IsSound b
      → lookup pair b.candles ≡ some os
      → Reported b.data_time interval count os (candles_from pair interval count os b)
  unfolding candles_from
  candles_from-Reported pair interval count [] b v at = (refl, v)
  candles_from-Reported pair interval count (o ∷ after) b v at =
      Reported-candles_at b.data_time o after interval count (search_data (o ∷ after) pair b)
        (search_data-Searched pair (o ∷ after) b v at)

  pub get_ohlcv-Reported :
      (pair : TradablePair) (interval : ℤ) (count : ℕ) (b : BackTestingData W)
      → IsSound b
      → Reported b.data_time interval count (candles_of pair b) (get_ohlcv pair interval count b)
  unfolding get_ohlcv
  get_ohlcv-Reported pair interval count b v =
      let (os, b') = get_or_load_data pair b in
      let (v', at, same) = load-IsLoaded pair b v in
      subst (λ t. Reported t interval count os (candles_from pair interval count os b')) same
        (candles_from-Reported pair interval count os b' v' at)
