-- ===== src/Trading/FromTrades/Window.antt =====
-- The candles of one object stand on a grid of intervals.
use marketblocks.Prelude.{
  ℤ, pos, List, [], ◌∷◌, arith, ◌≡◌, sym, inl, inr, ◌∙◌, leb_ℤ, ltb_ℤ, ◌<ℤ◌, ◌≤ℤ◌, ◌+ℤ◌, ◌-ℤ◌, ◌*ℤ◌,
  ◌/ℤ◌, floor_multiple, zero-*ℤ, add_steps, ltb→ge, int_laws, Bool-cases, leb→gt, refl, sym,
}
use mathlib.Core.Path.{subst}
use marketblocks.Double.{Double}
use marketblocks.Trading.Market.{TradeUpdate}
use marketblocks.Trading.FromTrades.{
  OhlcvFromTrades, roll, open_with, widen, close_with, start_new_candle, add_trade, add_trades,
  get_ohlcv, to_ohlcv,
}

-- `t` lies a whole number of intervals after `s`.
abbrev pub Follows : ℤ → ℤ → ℤ → Type 0
Follows i s t = (k : ℤ) × (pos 0 ≤ℤ k) × (t ≡ s +ℤ k *ℤ i)

Follows-refl : (i s : ℤ) → Follows i s s
Follows-refl i s = (pos 0, omega arith, rw (zero-*ℤ i) (omega int_laws))

Follows-trans : (i s t u : ℤ) → pos 0 <ℤ i → Follows i s t → Follows i t u → Follows i s u
Follows-trans i s t u p (k, hk, e) (l, hl, e') =
    (k +ℤ l, omega int_laws, rw (e', e) (add_steps s k l i hk hl p))

module _ {W : Type 0} ⦃d : Double W⦄ where
  roll-window :
      (c : OhlcvFromTrades W) (now : ℤ)
      → pos 0 <ℤ c.interval
      → c.start_time ≤ℤ now
      → ((roll c now).start_time ≤ℤ now)
        × (now <ℤ (roll c now).start_time +ℤ c.interval)
        × Follows c.interval c.start_time (roll c now).start_time
  unfolding roll start_new_candle
  roll-window c now pos_interval h = elim (Bool-cases (leb_ℤ (c.start_time +ℤ c.interval) now)) [
    | inl late ↦
        let gap : pos 0 ≤ℤ now -ℤ c.start_time = omega int_laws in
        let (below, above, whole) =
          floor_multiple (now -ℤ c.start_time) c.interval gap pos_interval in
        rw late (omega int_laws, omega int_laws, ((now -ℤ c.start_time) /ℤ c.interval, whole, refl))
    | inr early ↦ rw early (
      h,
      omega (int_laws, leb→gt _ _ early),
      (pos 0, omega arith, rw (zero-*ℤ c.interval) (omega int_laws)),
    )
  ]

  trade-start_time :
      (c : OhlcvFromTrades W) (time : ℤ) (price volume : W)
      → let c' = close_with (widen (open_with c time price) price volume) time price in
        (c'.start_time ≡ c.start_time) × (c'.interval ≡ c.interval)
  unfolding open_with widen close_with
  trade-start_time c time price volume = ground arith

  roll-interval : (c : OhlcvFromTrades W) (now : ℤ) → (roll c now).interval ≡ c.interval
  unfolding roll start_new_candle
  roll-interval c now = ground arith

  add_trade-Follows :
      (c : OhlcvFromTrades W) (t : TradeUpdate W)
      → pos 0 <ℤ c.interval
      → Follows c.interval c.start_time (add_trade c t).start_time
        × ((add_trade c t).interval ≡ c.interval)
  unfolding add_trade
  add_trade-Follows c t p = elim (Bool-cases (ltb_ℤ t.time_stamp c.start_time)) [
    | inl late ↦ rw late (Follows-refl _ _, refl)
    | inr in_time ↦
        let c' = roll c t.time_stamp in
        let (same, kept) = trade-start_time c' t.time_stamp t.price t.volume in
        let (_, _, grid) = roll-window c t.time_stamp p (ltb→ge _ _ in_time) in
        rw in_time (rw same grid, kept ∙ roll-interval c t.time_stamp)
  ]

  add_trades-Follows :
      (i : ℤ) (c : OhlcvFromTrades W) (ts : List (TradeUpdate W))
      → pos 0 <ℤ i
      → c.interval ≡ i
      → Follows i c.start_time (add_trades c ts).start_time × ((add_trades c ts).interval ≡ i)
  add_trades-Follows i c [] p e = (Follows-refl _ _, e)
  add_trades-Follows i c (t ∷ ts) p e =
      let (grid, kept) = add_trade-Follows c t (subst (λ j. pos 0 <ℤ j) (sym e) p) in
      let (rest, kept') = add_trades-Follows i (add_trade c t) ts p (kept ∙ e) in
      let first : Follows i c.start_time (add_trade c t).start_time =
        subst (λ j. Follows j c.start_time (add_trade c t).start_time) e grid in
      (Follows-trans _ _ _ _ p first rest, kept')

  -- After any trades, the candle reported at a moment that is not before the current candle covers
  -- that moment, and starts a whole number of intervals after the first candle, provided that the
  -- interval is positive.
  pub get_ohlcv-add_trades-window :
      (c : OhlcvFromTrades W) (ts : List (TradeUpdate W)) (now : ℤ)
      → pos 0 <ℤ c.interval
      → (add_trades c ts).start_time ≤ℤ now
      → let o = (get_ohlcv (add_trades c ts) now).0 in
        (o.time_stamp ≤ℤ now)
        × (now <ℤ o.time_stamp +ℤ c.interval)
        × Follows c.interval c.start_time o.time_stamp
  unfolding get_ohlcv to_ohlcv
  get_ohlcv-add_trades-window c ts now p h =
      let (grid, kept) = add_trades-Follows c.interval c ts p refl in
      let (low, high, more) =
        roll-window (add_trades c ts) now (subst (λ j. pos 0 <ℤ j) (sym kept) p) h in
      let start = (roll (add_trades c ts) now).start_time in
      (
        low,
        subst (λ j. now <ℤ start +ℤ j) kept high,
        Follows-trans _ _ _ _ p grid
            (subst (λ j. Follows j (add_trades c ts).start_time start) kept more),
      )
