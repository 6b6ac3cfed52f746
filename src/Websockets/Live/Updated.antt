-- ===== src/Websockets/Live/Updated.antt =====
-- What the updates of an exchange do to a stream whose handlers leave it alone: some updates under one name,
-- as the abstract stream tells them.
use marketblocks.Prelude.{
  ℤ, Bytes, false, ◌≡◌, refl, sym, ◌∙◌, ap, ◌⊎◌, List, [], ◌∷◌, ◌++◌, All, All-append, ◌==◌,
  bytes_equality, lookup, inl, inr, Bool-cases,
}
use marketblocks.Double.{Double, zero_double}
use marketblocks.Common.Run.{Run, and_then, Ends, and_then-Ends, Ends-map, run_each}
use marketblocks.Common.Json.{Read, value, raised, unspecified, read_in}
use marketblocks.Trading.Market.{TradeUpdate, OhlcvData, ask, OrderBookEntry}
use marketblocks.Websockets.Constants.{OhlcvInterval}
use marketblocks.Websockets.BookCache.{OrderBookCache}
use marketblocks.Websockets.Handlers.{
  fire_trade_update, fire_ohlcv_update, fire_order_book_update, has_trade_update_handler,
  has_ohlcv_update_handler, has_order_book_update_handler,
}
use marketblocks.Websockets.Live.{LiveStream, LiveWorld, LiveHandlers}
use marketblocks.Websockets.Live.Updates.{
  update_trade, update_ohlcv, initialise_order_book, update_order_book, put_trade, put_candle,
  put_book, change_book,
}
use marketblocks.Websockets.Live.View.{
  LiveEvent, trade_came, candle_came, book_came, entry_came, unsubscribes, LiveView, note, notes,
  is_some, happens-Implements, happen, happens,
}
use marketblocks.Websockets.Live.Passive.{IsPassive, fire-IsPassive, with_pair-IsPassive}

-- An update under a name.
abbrev pub IsUpdateOf : {W : Type 0} → Bytes → LiveEvent W → Type 0
IsUpdateOf name (trade_came other t) = other ≡ name
IsUpdateOf name (candle_came other interval o) = other ≡ name
IsUpdateOf name (book_came other cache) = other ≡ name
IsUpdateOf name (entry_came other time entry) = other ≡ name
IsUpdateOf name e = ⊥

module _ {W C : Type 0} ⦃d : Double W⦄ where
  happens-append :
      (es fs : List (LiveEvent W)) (l : LiveStream W C)
      → happens (es ++ fs) l ≡ happens fs (happens es l)
  unfolding happens
  happens-append [] fs l = refl
  happens-append (e ∷ es) fs l = happens-append es fs (happen e l)

module _ {W C S : Type 0} ⦃d : Double W⦄ where
  -- The stream is as some updates under the name leave it.
  abbrev pub IsUpdated : Bytes → LiveWorld W C S → LiveWorld W C S → Type 0
  IsUpdated name w w' =
      (es : List (LiveEvent W)) × All (IsUpdateOf name) es × (w'.stream ≡ happens es w.stream)

  pub IsUpdated-refl : (name : Bytes) (w : LiveWorld W C S) → IsUpdated name w w
  unfolding happens
  IsUpdated-refl name w = ([], _, refl)

  IsUpdated-trans :
      (name : Bytes) (u v w : LiveWorld W C S)
      → IsUpdated name u v
      → IsUpdated name v w
      → IsUpdated name u w
  IsUpdated-trans name u v w (es, p, e) (fs, q, f) = (
    es ++ fs,
    All-append (IsUpdateOf name) es fs p q,
    f ∙ ap (happens fs) e ∙ sym (happens-append es fs u.stream),
  )

  pub one_update :
      {A : Type 0} (name : Bytes) (e : LiveEvent W) (w : LiveWorld W C S)
      (m : Run (LiveWorld W C S) A)
      → IsUpdateOf name e
      → Ends (λ w'. w'.stream ≡ happen e w.stream) m
      → Ends (IsUpdated name w) m
  unfolding happens
  one_update name e w m p h =
      Ends-map (λ w'. w'.stream ≡ happen e w.stream) (IsUpdated name w) m
        (λ w' same. (e ∷ [], (p, _), same)) h

  -- A read changes nothing.
  pub read-IsUpdated :
      {A B : Type 0} (name : Bytes) (w : LiveWorld W C S) (r : Read A)
      (f : A → LiveWorld W C S → Run (LiveWorld W C S) B)
      → ((a : A) → Ends (IsUpdated name w) (f a w))
      → Ends (IsUpdated name w) (and_then (read_in r w) f)
  read-IsUpdated name w (value a) f h = h a
  read-IsUpdated name w (raised e) f h = IsUpdated-refl name w
  read-IsUpdated name w unspecified f h = _

  pub then-IsUpdated :
      {A B : Type 0} (name : Bytes) (w : LiveWorld W C S) (m : Run (LiveWorld W C S) A)
      (f : A → LiveWorld W C S → Run (LiveWorld W C S) B)
      → Ends (IsUpdated name w) m
      → ((a : A) (t : LiveWorld W C S) → Ends (IsUpdated name t) (f a t))
      → Ends (IsUpdated name w) (and_then m f)
  then-IsUpdated name w m f h k =
      and_then-Ends (IsUpdated name w) (IsUpdated name w) m f (λ t p. p)
        (λ a t p.
          Ends-map (IsUpdated name t) (IsUpdated name w) (f a t)
            (λ v q. IsUpdated-trans name w t v p q) (k a t))
        h

  pub run_each-IsUpdated :
      {X : Type 0} (name : Bytes) (call : X → LiveWorld W C S → Run (LiveWorld W C S) (Unit {0}))
      (xs : List X) (w : LiveWorld W C S)
      → ((x : X) (t : LiveWorld W C S) → Ends (IsUpdated name t) (call x t))
      → Ends (IsUpdated name w) (run_each call xs w)
  unfolding run_each
  run_each-IsUpdated name call [] w h = IsUpdated-refl name w
  run_each-IsUpdated name call (x ∷ xs) w h =
      then-IsUpdated name w (call x w) (λ u t. run_each call xs t) (h x w)
        (λ u t. run_each-IsUpdated name call xs t h)

  module _ (handlers : LiveHandlers W C S) (trades : IsPassive handlers.trade_update_handlers)
      (candles : IsPassive handlers.ohlcv_update_handlers)
      (books : IsPassive handlers.order_book_update_handlers) where
    pub update_trade-IsUpdated :
        (name : Bytes) (t : TradeUpdate W) (w : LiveWorld W C S)
        → Ends (IsUpdated name w) (update_trade handlers name t w)
    unfolding update_trade happen has_trade_update_handler fire_trade_update
    update_trade-IsUpdated name t w =
        let w' : LiveWorld W C S = record w { stream = put_trade name t w.stream } in
        one_update name (trade_came name t) w (update_trade handlers name t w) refl (
          with_pair-IsPassive name w'
            (λ pair. fire_trade_update handlers (record { pair = pair; trade = t }) w')
            (λ pair.
              fire-IsPassive handlers.trade_update_handlers (record { pair = pair; trade = t }) w'
                trades)
            (has_trade_update_handler handlers))

    pub update_ohlcv-IsUpdated :
        (name : Bytes) (interval : OhlcvInterval) (o : OhlcvData W) (w : LiveWorld W C S)
        → Ends (IsUpdated name w) (update_ohlcv handlers name interval o w)
    unfolding update_ohlcv happen has_ohlcv_update_handler fire_ohlcv_update
    update_ohlcv-IsUpdated name interval o w =
        let w' : LiveWorld W C S = record w { stream = put_candle name interval o w.stream } in
        one_update name (candle_came name interval o) w (update_ohlcv handlers name interval o w)
          refl
          (with_pair-IsPassive name w'
            (λ pair.
              fire_ohlcv_update handlers (record { pair = pair; interval = interval; ohlcv = o })
                w')
            (λ pair.
              fire-IsPassive handlers.ohlcv_update_handlers
                (record { pair = pair; interval = interval; ohlcv = o }) w' candles)
            (has_ohlcv_update_handler handlers))

    pub initialise_order_book-IsUpdated :
        (name : Bytes) (cache : OrderBookCache W) (w : LiveWorld W C S)
        → Ends (IsUpdated name w) (initialise_order_book handlers name cache w)
    unfolding initialise_order_book happen has_order_book_update_handler fire_order_book_update
    initialise_order_book-IsUpdated name cache w =
        let w' : LiveWorld W C S = record w { stream = put_book name cache w.stream } in
        let nothing : OrderBookEntry W = record {
          price = zero_double;
          volume = zero_double;
          side = ask;
        } in
        one_update name (book_came name cache) w (initialise_order_book handlers name cache w) refl
          (with_pair-IsPassive name w'
            (λ pair. fire_order_book_update handlers (record { pair = pair; entry = nothing }) w')
            (λ pair.
              fire-IsPassive handlers.order_book_update_handlers
                (record { pair = pair; entry = nothing }) w' books)
            (has_order_book_update_handler handlers))

    pub update_order_book-IsUpdated :
        (name : Bytes) (time : ℤ) (entry : OrderBookEntry W) (w : LiveWorld W C S)
        → Ends (IsUpdated name w) (update_order_book handlers name time entry w)
    unfolding update_order_book happen has_order_book_update_handler fire_order_book_update
    update_order_book-IsUpdated name time entry w =
        let w' : LiveWorld W C S = record w { stream = change_book name time entry w.stream } in
        one_update name (entry_came name time entry) w
          (update_order_book handlers name time entry w) refl
          (with_pair-IsPassive name w'
            (λ pair. fire_order_book_update handlers (record { pair = pair; entry = entry }) w')
            (λ pair.
              fire-IsPassive handlers.order_book_update_handlers
                (record { pair = pair; entry = entry }) w' books)
            (has_order_book_update_handler handlers))

-- The view that tells what the maps of a stream hold.
abbrev view_of : {W C : Type 0} → LiveStream W C → LiveView W
view_of l = record {
  last_trade = λ name. lookup name l.trades;
  last_candle = λ id. lookup id l.candles;
  last_book = λ name. lookup name l.order_books;
  is_connected = is_some l.connection;
}

module _ {W : Type 0} ⦃d : Double W⦄ where
  note-others :
      (name other : Bytes) (e : LiveEvent W) (v : LiveView W)
      → (name == other) ≡ false
      → IsUpdateOf name e
      → ((note e v).last_trade other ≡ v.last_trade other)
        × ((note e v).last_book other ≡ v.last_book other)
  note-others name other (trade_came n t) v h p = rw (p, h) (refl, refl)
  note-others name other (candle_came n interval o) v h p = (refl, refl)
  note-others name other (book_came n cache) v h p = rw (p, h) (refl, refl)
  note-others name other (entry_came n time entry) v h p = rw (p, h) (refl, refl)
  note-others name other (unsubscribes s) v h p = absurd p

  notes-others :
      (name other : Bytes) (es : List (LiveEvent W)) (v : LiveView W)
      → (name == other) ≡ false
      → All (IsUpdateOf name) es
      → ((notes es v).last_trade other ≡ v.last_trade other)
        × ((notes es v).last_book other ≡ v.last_book other)
  notes-others name other [] v h p = (refl, refl)
  notes-others name other (e ∷ es) v h (p, ps) =
      let (t, b) = note-others name other e v h p in
      let (ts, bs) = notes-others name other es (note e v) h ps in (ts ∙ t, bs ∙ b)

module _ {W C : Type 0} ⦃d : Double W⦄ where
  -- Updates under a name change what is kept under no other.
  pub happens-others :
      (name other : Bytes) (es : List (LiveEvent W)) (l : LiveStream W C)
      → All (IsUpdateOf name) es
      → (other ≡ name)
        ⊎ ((lookup other (happens es l).trades ≡ lookup other l.trades)
            × (lookup other (happens es l).order_books ≡ lookup other l.order_books))
  happens-others name other es l p = elim (Bool-cases (name == other)) [
    | inl h ↦ inl (sym ((bytes_equality.beq_iff name other).0 h))
    | inr h ↦
        let i = happens-Implements es l (view_of l) (record {
          trades_agree = λ n. refl;
          candles_agree = λ n. refl;
          books_agree = λ n. refl;
          connection_agrees = refl;
        }) in
        let (t, b) = notes-others name other es (view_of l) h p in
        inr (i.trades_agree other ∙ t, i.books_agree other ∙ b)
  ]
