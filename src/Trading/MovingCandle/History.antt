-- ===== src/Trading/MovingCandle/History.antt =====
-- A moving candle over a history of trades and readings.
use mathlib.Core.Path.{subst}
use marketblocks.Prelude.{
  ℤ, pos, Option, none, some, List, [], ◌∷◌, ◌≡◌, refl, sym, ◌∙◌, ◌>>=◌, ◌≤ℤ◌, ◌-ℤ◌,
}
use marketblocks.Double.{Double}
use marketblocks.Trading.Market.{OhlcvData, TradeUpdate}
use marketblocks.Trading.MovingCandle.{
  MovingCandle, new_moving_candle, get_offset_trades, update_values, push_trade, window_ohlcv,
  get_moving_ohlcv, get_quote_volume,
}
use marketblocks.Trading.MovingCandle.Defined.{
  IsWindow, IsFit, IsUpdated, update_values-IsUpdated, push_trade-new, push_trade-IsUpdated,
  offset_trades-front,
}

-- The calls on a moving candle; a reading asks for the candle or for the quote volume.
pub data MovingCall (W : Type 0) : Type 0 where
  pushes : TradeUpdate W → MovingCall W
  reads volumes : ℤ → MovingCall W

-- The trades that are pushed are not before the epoch.
abbrev pub IsTimed : {W : Type 0} → List (MovingCall W) → Type 0
IsTimed [] = Unit {0}
IsTimed (pushes t ∷ cs) = (pos 0 ≤ℤ t.time_stamp) × IsTimed cs
IsTimed (reads time ∷ cs) = IsTimed cs
IsTimed (volumes time ∷ cs) = IsTimed cs

-- The object that a reading leaves.
abbrev left : {A C : Type 0} → Option (A × C) → Option C
left none = none
left (some (x, c)) = some c

module _ {W : Type 0} ⦃d : Double W⦄ where
  unfoldable pub move : MovingCall W → MovingCandle W → Option (MovingCandle W)
  move (pushes t) c = push_trade c t
  move (reads time) c = left (get_moving_ohlcv c time)
  move (volumes time) c = left (get_quote_volume c time)

  unfoldable pub moves : List (MovingCall W) → MovingCandle W → Option (MovingCandle W)
  moves [] c = some c
  moves (call ∷ cs) c = move call c >>= λ c'. moves cs c'

  IsUpdated-IsFit :
      (interval offset : ℤ) (c : MovingCandle W) (m : Option (MovingCandle W))
      → c.interval ≡ interval
      → c.offset ≡ offset
      → IsUpdated c m
      → (c' : MovingCandle W) × (m ≡ some c') × IsFit interval offset c'
  IsUpdated-IsFit interval offset c none e f h = absurd h
  IsUpdated-IsFit interval offset c (some c') e f (fronted, same, same') =
      (c', refl, (fronted, same ∙ e, same' ∙ f))

  window_ohlcv-some :
      (time : ℤ) (t : TradeUpdate W) (ts : List (TradeUpdate W))
      → (o : OhlcvData W) × (window_ohlcv time (t ∷ ts) ≡ some o)
  unfolding window_ohlcv
  window_ohlcv-some time t ts = (_, refl)

  module _ (interval offset : ℤ) (window : IsWindow interval offset) where
    updates :
        (c : MovingCandle W) (time : ℤ)
        → IsFit interval offset c
        → (c' : MovingCandle W) × (update_values c time ≡ some c') × IsFit interval offset c'
    updates c time (fronted, e, f) =
        IsUpdated-IsFit interval offset c (update_values c time) e f
          (update_values-IsUpdated c time fronted)

    fit-front :
        (c : MovingCandle W)
        → IsFit interval offset c
        → (t : TradeUpdate W) × ((ts : List (TradeUpdate W)) × (get_offset_trades c ≡ t ∷ ts))
    fit-front c (fronted, e, f) =
        offset_trades-front c
          (subst (λ i. IsWindow i c.offset) (sym e)
            (subst (λ o. IsWindow interval o) (sym f) window))
          fronted

    -- A reading of the candle succeeds, from the trade that the window begins with.
    get_moving_ohlcv-IsFit :
        (c : MovingCandle W) (time : ℤ)
        → IsFit interval offset c
        → (o : OhlcvData W) × ((c' : MovingCandle W) × (get_moving_ohlcv c time ≡ some (o, c'))
            × (update_values c time ≡ some c')
            × (window_ohlcv (c'.start_time -ℤ c'.offset) (get_offset_trades c') ≡ some o)
            × IsFit interval offset c')
    unfolding get_moving_ohlcv
    get_moving_ohlcv-IsFit c time fit =
        let (c', updated, fit') = updates c time fit in
        let (t, (ts, e)) = fit-front c' fit' in
        let time' = c'.start_time -ℤ c'.offset in
        let (o, made) = window_ohlcv-some time' t ts in
        let made' = subst (λ us. window_ohlcv time' us ≡ some o) (sym e) made in
        (o, (c', rw (updated, made') refl, updated, made', fit'))

    get_quote_volume-IsFit :
        (c : MovingCandle W) (time : ℤ)
        → IsFit interval offset c
        → (c' : MovingCandle W) × (left (get_quote_volume c time) ≡ some c')
          × IsFit interval offset c'
    unfolding get_quote_volume
    get_quote_volume-IsFit c time fit =
        let (c', updated, fit') = updates c time fit in (c', rw updated refl, fit')

    move-IsFit :
        (call : MovingCall W) (cs : List (MovingCall W)) (c : MovingCandle W)
        → IsTimed (call ∷ cs)
        → IsFit interval offset c
        → (c' : MovingCandle W) × (move call c ≡ some c') × IsFit interval offset c' × IsTimed cs
    unfolding move
    move-IsFit (pushes t) cs c (later, timed) (fronted, e, f) =
        let (c', pushed, fit') =
          IsUpdated-IsFit interval offset c (push_trade c t) e f
            (push_trade-IsUpdated c t later fronted) in
        (c', pushed, fit', timed)
    move-IsFit (reads time) cs c timed fit =
        let (o, (c', read, updated, made, fit')) = get_moving_ohlcv-IsFit c time fit in
        (c', rw read refl, fit', timed)
    move-IsFit (volumes time) cs c timed fit =
        let (c', read, fit') = get_quote_volume-IsFit c time fit in (c', read, fit', timed)

    moves-IsFit :
        (cs : List (MovingCall W)) (c : MovingCandle W)
        → IsTimed cs
        → IsFit interval offset c
        → (c' : MovingCandle W) × (moves cs c ≡ some c') × IsFit interval offset c'
    unfolding moves
    moves-IsFit [] c timed fit = (c, refl, fit)
    moves-IsFit (call ∷ cs) c timed fit =
        let (c', moved, fit', timed') = move-IsFit call cs c timed fit in
        let (c'', rest, fit'') = moves-IsFit cs c' timed' fit' in
        (c'', rw (moved, rest) refl, fit'')

    -- A moving candle with a positive interval and an offset from zero to the interval that is given
    -- a first trade, and then any trades and readings, all trades at times from the epoch on, reads no
    -- empty deque: every call succeeds, and a last reading gives the candle of the trades in the
    -- window, of which there is one at least.
    pub get_moving_ohlcv-moves :
        (t : TradeUpdate W) (cs : List (MovingCall W)) (time : ℤ)
        → IsTimed (pushes t ∷ cs)
        → (c : MovingCandle W) × ((c' : MovingCandle W) × ((o : OhlcvData W) × (moves
                  (pushes t ∷ cs)
                  (new_moving_candle interval offset)
                ≡ some c)
              × (get_moving_ohlcv c time ≡ some (o, c'))
              × (window_ohlcv (c'.start_time -ℤ c'.offset) (get_offset_trades c') ≡ some o)))
    unfolding moves move new_moving_candle
    get_moving_ohlcv-moves t cs time (epoch, timed) =
        let (c1, pushed, fit1) =
          IsUpdated-IsFit interval offset (new_moving_candle interval offset)
            (push_trade (new_moving_candle interval offset) t) refl refl
            (push_trade-new interval offset t epoch) in
        let (c2, moved, fit2) = moves-IsFit cs c1 timed fit1 in
        let (o, (c3, read, updated, made, fit3)) = get_moving_ohlcv-IsFit c2 time fit2 in
        (c2, (c3, (o, rw (pushed, moved) refl, read, made)))
