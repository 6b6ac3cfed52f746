-- ===== src/Websockets/Live/Traded.antt =====
-- What trades do to a stream whose handlers leave it alone, and are defined.
use marketblocks.Prelude.{
  Bytes, Bool, true, false, ◌≡◌, refl, List, [], ◌∷◌, All, Option, some, arith, ◌==◌,
  bytes_equality, lookup, lookup-insert_or_assign, if◌then◌else◌, inl, inr, Option-cases,
  Bool-cases, ◌∙◌, ap,
}
use mathlib.Core.Path.{subst}
use marketblocks.Double.{Double}
use marketblocks.Common.Run.{Run, returns, Leaves, and_then-Leaves}
use marketblocks.Trading.Pair.{TradablePair}
use marketblocks.Trading.Market.{TradeUpdate}
use marketblocks.Websockets.Handlers.{
  Handler, fire_handlers, fire, fire_trade_update, has_trade_update_handler,
}
use marketblocks.Websockets.Live.{LiveStream, LiveWorld, LiveHandlers}
use marketblocks.Websockets.Live.Updates.{update_trade, with_pair, put_trade}

module _ {W C S : Type 0} where
  -- The handlers return or throw, and keep the stream as it is.
  abbrev pub IsHarmless : {M : Type 0} → List (Handler (LiveWorld W C S) M) → Type 0
  IsHarmless {M} handlers =
      All
        (λ (h : Handler (LiveWorld W C S) M).
          (m : M) (w : LiveWorld W C S) → Leaves (λ w'. w'.stream ≡ w.stream) (h m w))
        handlers

  fire_handlers-IsHarmless :
      {M : Type 0} (handlers : List (Handler (LiveWorld W C S) M)) (m : M) (w : LiveWorld W C S)
      (l : LiveStream W C)
      → IsHarmless handlers
      → w.stream ≡ l
      → Leaves (λ w'. w'.stream ≡ l) (fire_handlers handlers m w)
  unfolding fire_handlers
  fire_handlers-IsHarmless [] m w l p same = same
  fire_handlers-IsHarmless {M} (h ∷ hs) m w l (p, ps) same =
      and_then-Leaves (λ w'. w'.stream ≡ l) (h m w) (λ u t. fire_handlers hs m t)
        (λ u t e. fire_handlers-IsHarmless hs m t l ps e)
        (subst (λ s. Leaves (λ (w' : LiveWorld W C S). w'.stream ≡ s) (h m w)) same (p m w))

  fire-IsHarmless :
      {M : Type 0} (handlers : List (Handler (LiveWorld W C S) M)) (m : M) (w : LiveWorld W C S)
      → IsHarmless handlers
      → Leaves (λ w'. w'.stream ≡ w.stream) (fire handlers m w)
  fire-IsHarmless [] m w p = refl
  fire-IsHarmless (h ∷ hs) m w p = fire_handlers-IsHarmless (h ∷ hs) m w w.stream p refl

  with_pair-Leaves :
      (name : Bytes) (w : LiveWorld W C S) (fires : TradablePair → Run (LiveWorld W C S) (Unit {0}))
      → ((pair : TradablePair) → Leaves (λ w'. w'.stream ≡ w.stream) (fires pair))
      → (b : Bool)
      → Leaves (λ w'. w'.stream ≡ w.stream) (if b then with_pair name w fires else returns tt w)
  with_pair-Leaves name w fires p true = elim (Option-cases (lookup name w.stream.pairs)) [
    | inl h ↦ rw (Leaves, h) refl
    | inr (pair, h) ↦ rw (Leaves, h) (p pair)
  ]
  with_pair-Leaves name w fires p false = refl

  pub update_trade-Leaves :
      ⦃d : Double W⦄ (handlers : LiveHandlers W C S) (name : Bytes) (t : TradeUpdate W)
      (w : LiveWorld W C S)
      → IsHarmless handlers.trade_update_handlers
      → Leaves (λ w'. w'.stream ≡ put_trade name t w.stream) (update_trade handlers name t w)
  unfolding update_trade has_trade_update_handler fire_trade_update
  update_trade-Leaves handlers name t w harmless =
      let w' : LiveWorld W C S = record w { stream = put_trade name t w.stream } in
      with_pair-Leaves name w'
        (λ pair. fire_trade_update handlers (record { pair = pair; trade = t }) w')
        (λ pair.
          fire-IsHarmless handlers.trade_update_handlers (record { pair = pair; trade = t }) w'
            harmless)
        (has_trade_update_handler handlers)

module _ {W : Type 0} where
  -- The last of some trades, where there is one.
  abbrev pub latest : List (TradeUpdate W) → Option (TradeUpdate W) → Option (TradeUpdate W)
  latest [] before = before
  latest (t ∷ ts) before = latest ts (some t)

module _ {W C : Type 0} where
  -- The last of the trades is kept under the name, and all else is as it was.
  abbrev pub IsTraded : Bytes → List (TradeUpdate W) → LiveStream W C → LiveStream W C → Type 0
  IsTraded name ts l l' =
      ((other : Bytes)
        → lookup other l'.trades
          ≡ (if name == other then latest ts (lookup other l.trades) else lookup other l.trades))
      × (l'.candles ≡ l.candles)
      × (l'.order_books ≡ l.order_books)

  pub put_trade-IsTraded :
      (name : Bytes) (t : TradeUpdate W) (l l' : LiveStream W C)
      → l' ≡ put_trade name t l
      → IsTraded name (t ∷ []) l l'
  unfolding put_trade
  put_trade-IsTraded name t l l' same =
      rw same (λ other. ground (arith, lookup-insert_or_assign name other t l.trades), refl, refl)

  pub IsTraded-refl : (name : Bytes) (l : LiveStream W C) → IsTraded name [] l l
  IsTraded-refl name l = (λ other. ground arith, refl, refl)

  pub IsTraded-cons :
      (name : Bytes) (t : TradeUpdate W) (ts : List (TradeUpdate W)) (l m r : LiveStream W C)
      → IsTraded name (t ∷ []) l m
      → IsTraded name ts m r
      → IsTraded name (t ∷ ts) l r
  IsTraded-cons name t ts l m r (p, c, b) (q, c', b') = (
    λ other.
        let now = p other in
        let later = q other in
        elim (Bool-cases (name == other)) [
          | inl same ↦
              let now' : lookup other m.trades ≡ some t = rw same at now in
              let later' : lookup other r.trades ≡ latest ts (lookup other m.trades) =
                rw same at later in
              rw same (later' ∙ ap (latest ts) now')
          | inr differ ↦
              let now' : lookup other m.trades ≡ lookup other l.trades = rw differ at now in
              let later' : lookup other r.trades ≡ lookup other m.trades = rw differ at later in
              rw differ (later' ∙ now')
        ],
    c' ∙ c,
    b' ∙ b,
  )
