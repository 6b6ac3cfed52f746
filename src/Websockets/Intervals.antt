-- ===== src/Websockets/Intervals.antt =====
-- The conversions of intervals undo one another.
use marketblocks.Prelude.{ℕ, some, ◌≡◌, ◌≢◌, ◌↔◌, refl, arith, bytes_equality, nat_equality, lookup}
use marketblocks.Websockets.Constants.{
  OhlcvInterval, m1, m5, m15, h1, d1, w1, unknown, parse_ohlcv_interval, interval_to_string,
  to_seconds, from_seconds,
}

-- A number of seconds is read as an interval other than UNKNOWN exactly when it is the length of that
-- interval.
pub from_seconds-to_seconds_iff :
    (s : ℕ) (i : OhlcvInterval) → i ≢ unknown → (from_seconds s ≡ i) ↔ (to_seconds i ≡ some s)
unfolding from_seconds to_seconds
from_seconds-to_seconds_iff s i known = ground arith

-- Every interval is read back from its name, UNKNOWN from the empty text that stands for it.
pub parse_ohlcv_interval-interval_to_string :
    (i : OhlcvInterval) → parse_ohlcv_interval (interval_to_string i) ≡ i
unfolding parse_ohlcv_interval interval_to_string lookup
parse_ohlcv_interval-interval_to_string m1 = refl
parse_ohlcv_interval-interval_to_string m5 = refl
parse_ohlcv_interval-interval_to_string m15 = refl
parse_ohlcv_interval-interval_to_string h1 = refl
parse_ohlcv_interval-interval_to_string d1 = refl
parse_ohlcv_interval-interval_to_string w1 = refl
parse_ohlcv_interval-interval_to_string unknown = refl
