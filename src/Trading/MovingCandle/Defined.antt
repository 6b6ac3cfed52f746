-- ===== src/Trading/MovingCandle/Defined.antt =====
-- The moving candle reads no empty deque once it has been given a trade.
use marketblocks.Prelude.{
  ap, le→leb, true, ℤ, pos, Option, none, some, List, [], ◌∷◌, ◌++◌, ◌≡◌, refl, inl, inr, arith,
  ◌≤ℤ◌, ◌<ℤ◌, ◌+ℤ◌, ◌-ℤ◌, leb_ℤ, eqb_ℤ, int_laws, Bool-cases, leb→le, if◌then◌else◌,
}
use marketblocks.Double.{Double}
use marketblocks.Trading.Market.{TradeUpdate}
use marketblocks.Trading.MovingCandle.{
  MovingCandle, new_moving_candle, up_to, get_offset_trades, move_start, pop_stale, fill_front,
  update_values, push_trade,
}

-- An interval of some length, and an offset that does not pass it.
abbrev pub IsWindow : ℤ → ℤ → Type 0
IsWindow interval offset = (pos 0 <ℤ interval) × (pos 0 ≤ℤ offset) × (offset ≤ℤ interval)

module _ {W : Type 0} where
  -- The first trade is not after the beginning of the window, and the window not before the epoch.
  abbrev pub IsFronted : MovingCandle W → Type 0
  IsFronted c =
      (t : TradeUpdate W) × ((ts : List (TradeUpdate W)) × (c.trades ≡ t ∷ ts)
        × (t.time_stamp ≤ℤ c.start_time)
        × (pos 0 ≤ℤ c.start_time))

  pop_stale-front :
      (start : ℤ) (front : TradeUpdate W) (ts : List (TradeUpdate W))
      → front.time_stamp ≤ℤ start
      → (pop_stale start front ts).0.time_stamp ≤ℤ start
  unfolding pop_stale
  pop_stale-front start front [] h = h
  pop_stale-front start front (t ∷ ts) h = elim (Bool-cases (leb_ℤ t.time_stamp start)) [
    | inl stale ↦ rw stale (pop_stale-front start t ts (leb→le _ _ stale))
    | inr live ↦ rw live h
  ]

  move_start-le : (c : MovingCandle W) (time : ℤ) → c.start_time ≤ℤ move_start c time
  unfolding move_start
  move_start-le c time = elim (Bool-cases (leb_ℤ (c.start_time +ℤ c.interval) (time -ℤ c.offset))) [
    | inl moved ↦ rw moved (omega (int_laws, leb→le _ _ moved))
    | inr kept ↦ rw kept (omega arith)
  ]

module _ {W : Type 0} ⦃d : Double W⦄ where
  -- A candle that has been brought up to date.
  abbrev pub IsUpdated : MovingCandle W → Option (MovingCandle W) → Type 0
  IsUpdated c none = ⊥
  IsUpdated c (some c') = IsFronted c' × (c'.interval ≡ c.interval) × (c'.offset ≡ c.offset)

  fill_front-stamp :
      (start : ℤ) (front : TradeUpdate W)
      → front.time_stamp ≤ℤ start
      → (fill_front start front).time_stamp ≤ℤ start
  unfolding fill_front
  fill_front-stamp start front h = ground arith

  pub update_values-IsUpdated :
      (c : MovingCandle W) (time : ℤ) → IsFronted c → IsUpdated c (update_values c time)
  unfolding update_values
  update_values-IsUpdated c time (t, (ts, e, front, epoch)) =
      let start = move_start c time in
      let later = move_start-le c time in
      let popped = pop_stale-front start t ts (omega (arith, later)) in
      let filled = fill_front-stamp start (pop_stale start t ts).0 popped in
      rw (update_values, e)
        (
          (
            fill_front start (pop_stale start t ts).0,
            ((pop_stale start t ts).1, refl, filled, omega (arith, later)),
          ),
          refl,
          refl,
        )

  -- The candle is fit to be read, with the interval and the offset it was made with.
  abbrev pub IsFit : ℤ → ℤ → MovingCandle W → Type 0
  IsFit interval offset c = IsFronted c × (c.interval ≡ interval) × (c.offset ≡ offset)

  abbrev pub GivesFit : {A : Type 0} → ℤ → ℤ → Option (A × MovingCandle W) → Type 0
  GivesFit interval offset none = ⊥
  GivesFit interval offset (some (x, c)) = IsFit interval offset c

  pub push_trade-new :
      (interval offset : ℤ) (t : TradeUpdate W)
      → pos 0 ≤ℤ t.time_stamp
      → IsUpdated
          (new_moving_candle interval offset)
          (push_trade (new_moving_candle interval offset) t)
  unfolding new_moving_candle push_trade
  push_trade-new interval offset t epoch =
      update_values-IsUpdated
        (record {
          interval = interval;
          offset = offset;
          trades = t ∷ [];
          start_time = t.time_stamp;
        })
        t.time_stamp (t, ([], refl, omega arith, epoch))

  pub push_trade-IsUpdated :
      (c : MovingCandle W) (t : TradeUpdate W)
      → pos 0 ≤ℤ t.time_stamp
      → IsFronted c
      → IsUpdated c (push_trade c t)
  unfolding push_trade
  push_trade-IsUpdated c t later (f, (fs, e, front, epoch)) =
      let start = if eqb_ℤ c.start_time (pos 0) then t.time_stamp else c.start_time in
      update_values-IsUpdated (record c { start_time = start; trades = c.trades ++ (t ∷ []) })
        t.time_stamp (f, (fs ++ (t ∷ []), ap (λ ts. ts ++ (t ∷ [])) e, ground arith, ground arith))

  -- The window that the candle is made of holds its first trade.
  pub offset_trades-front :
      (c : MovingCandle W)
      → IsWindow c.interval c.offset
      → IsFronted c
      → (t : TradeUpdate W) × ((ts : List (TradeUpdate W)) × (get_offset_trades c ≡ t ∷ ts))
  unfolding get_offset_trades up_to
  offset_trades-front c (some_length, forward, within) (t, (ts, e, front, epoch)) =
      elim (Bool-cases (eqb_ℤ c.offset (pos 0))) [
        | inl whole ↦ (t, (ts, rw whole e))
        | inr shifted ↦
            let bound = c.start_time +ℤ c.interval -ℤ c.offset in
            let held : leb_ℤ t.time_stamp bound ≡ true =
              le→leb _ _ (omega (int_laws, front, within)) in
            (t, (up_to bound ts, rw (shifted, e, held) refl))
      ]
