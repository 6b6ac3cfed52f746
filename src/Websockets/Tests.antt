-- ===== src/Websockets/Tests.antt =====
-- A cached book on decimal fractions, whose comparisons are exact.
use marketblocks.Prelude.{
  some, ℕ, ℤ, pos, negsuc, ◌*ℤ◌, ◌/ℤ◌, ◌-ℤ◌, ◌<ℤ◌, leb_ℤ, ltb_ℤ, if◌then◌else◌, true, false, ◌↔◌,
  List, [], ◌∷◌, map, ◌≡◌, refl, arith, length, ◌⊎◌, ◌≤◌,
}
use marketblocks.Double.Fixed.{Fixed, fixed_mul, fixed_abs, fixed_double, runs_fixed}
use marketblocks.Common.Math.{double_equal, double_less_than, double_greater_than}
use marketblocks.Trading.Market.{OrderBookEntry, OrderBookState, OrderBookSide, ask, bid}
use marketblocks.Websockets.Constants.{
  m15, h1, parse_ohlcv_interval, interval_to_string, to_seconds, from_seconds,
}
use marketblocks.Websockets.Intervals.{
  from_seconds-to_seconds_iff, parse_ohlcv_interval-interval_to_string,
}
use marketblocks.Websockets.BookCache.{
  update_cache, update_by_side, update_side, set_erase, set_insert, set_of, from_snapshot, snapshot,
  entry_less_than, entry_greater_than,
}
use marketblocks.Websockets.BookCache.Ordered.{
  IsTransitive, IsBook, update_caches, snapshot-update_caches-IsBook,
}

abbrev entry : OrderBookSide → ℤ → ℤ → OrderBookEntry Fixed
entry side price volume = record { price = price; volume = volume; side = side }

abbrev book : OrderBookState Fixed
book = record {
  time_stamp = pos 5;
  asks = entry ask (pos 30_000) (pos 10_000) ∷ entry ask (pos 20_000) (pos 10_000) ∷ [];
  bids = entry bid (pos 10_000) (pos 10_000) ∷ [];
}

-- One ask is taken, and a better bid comes in.
abbrev changes : List (ℤ × OrderBookEntry Fixed)
changes =
    (pos 6, entry ask (pos 20_000) (pos 0)) ∷ (pos 7, entry bid (pos 15_000) (pos 10_000)) ∷ []

runs_book : ℕ
unfolding runs_fixed double_equal double_less_than double_greater_than update_cache update_by_side
    update_side set_erase set_insert set_of from_snapshot snapshot entry_less_than
    entry_greater_than
runs_book = 0

asks_left :
    map
      (λ (e : OrderBookEntry Fixed). e.price)
      (snapshot 0 (update_caches changes (from_snapshot book))).asks
    ≡ pos 30_000 ∷ []
unfolding runs_book
asks_left = refl

best_bid :
    map
      (λ (e : OrderBookEntry Fixed). e.price)
      (snapshot 1 (update_caches changes (from_snapshot book))).bids
    ≡ pos 15_000 ∷ []
unfolding runs_book
best_bid = refl

-- Without a tolerance the comparisons are those of the numbers.
no_tolerance : (a : Fixed) → fixed_mul a (pos 0) ≡ pos 0
unfolding fixed_mul ◌*ℤ◌ ◌/ℤ◌
no_tolerance (pos a) = ground arith
no_tolerance (negsuc a) = ground arith

gap : (a b : Fixed) → a <ℤ b → leb_ℤ (fixed_abs (a -ℤ b)) (pos 0) ≡ false
unfolding fixed_abs ◌-ℤ◌
gap a b h = ground arith

gap_back : (a b : Fixed) → b <ℤ a → leb_ℤ (fixed_abs (a -ℤ b)) (pos 0) ≡ false
unfolding fixed_abs ◌-ℤ◌
gap_back a b h = ground arith

differ : (a b : Fixed) → leb_ℤ (fixed_abs (a -ℤ b)) (pos 0) ≡ false → double_equal a b ≡ false
unfolding double_equal
differ a b h =
    let a' = fixed_abs a in
    let b' = fixed_abs b in
    let four = fixed_double.literal (pos 4) 0 in
    rw (no_tolerance four, no_tolerance (if ltb_ℤ a' b' then b' else a'), h) refl

less_iff : (a b : Fixed) → (double_less_than a b ≡ true) ↔ (a <ℤ b)
unfolding double_less_than
less_iff a b = (λ h. ground arith, λ h. rw (differ a b (gap a b h)) (ground arith))

greater_iff : (a b : Fixed) → (double_greater_than a b ≡ true) ↔ (b <ℤ a)
unfolding double_greater_than
greater_iff a b = (λ h. ground arith, λ h. rw (differ a b (gap_back a b h)) (ground arith))

less_trans : IsTransitive (entry_less_than {W = Fixed})
unfolding entry_less_than
less_trans x y z h k =
    (less_iff x.price z.price).1
      (omega (arith, (less_iff x.price y.price).0 h, (less_iff y.price z.price).0 k))

greater_trans : IsTransitive (entry_greater_than {W = Fixed})
unfolding entry_greater_than
greater_trans x y z h k =
    (greater_iff x.price z.price).1
      (omega (arith, (greater_iff x.price y.price).0 h, (greater_iff y.price z.price).0 k))

snapshot-update_caches-IsBook_example :
    let s = snapshot 1 (update_caches changes (from_snapshot book)) in
    IsBook s.asks s.bids × (◌≡◌ {A = ℕ} 1 0 ⊎ ((length s.asks ≤ 1) × (length s.bids ≤ 1)))
unfolding runs_fixed
snapshot-update_caches-IsBook_example =
    snapshot-update_caches-IsBook less_trans greater_trans book changes 1 (refl, (refl, tt))
      (refl, tt)

from_seconds-to_seconds_iff_example : (from_seconds 900 ≡ m15) ↔ (to_seconds m15 ≡ some 900)
from_seconds-to_seconds_iff_example = from_seconds-to_seconds_iff 900 m15 (λ e. cc)

parse_ohlcv_interval-interval_to_string_example : parse_ohlcv_interval (interval_to_string h1) ≡ h1
parse_ohlcv_interval-interval_to_string_example = parse_ohlcv_interval-interval_to_string h1
