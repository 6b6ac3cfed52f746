-- ===== src/Websockets/Live/View.antt =====
-- What a stream promises, without its maps: the last update of each kind under each name, and that the
-- stream implements it.
use marketblocks.Prelude.{
  ℤ, Bytes, Bool, true, false, Option, none, some, List, [], ◌∷◌, ◌≡◌, refl, inl, inr, arith, ◌==◌,
  bytes_equality, lookup, lookup-insert_or_assign, lookup-erase, Option-cases, if◌then◌else◌,
}
use marketblocks.Double.{Double}
use marketblocks.Common.Run.{after}
use marketblocks.Trading.Market.{TradeUpdate, OhlcvData, OrderBookEntry}
use marketblocks.Websockets.Constants.{WebsocketChannel, order_book, trade, ohlcv, OhlcvInterval}
use marketblocks.Websockets.Stream.{Subscription}
use marketblocks.Websockets.BookCache.{OrderBookCache}
use marketblocks.Websockets.Live.{LiveStream, create_ohlcv_sub_id, set_unsubscribed}
use marketblocks.Websockets.Live.Updates.{
  put_trade, put_candle, put_book, changed_book, change_book,
}

-- What the messages of an exchange do to the caches of its stream.
pub data LiveEvent (W : Type 0) : Type 0 where
  trade_came : Bytes → TradeUpdate W → LiveEvent W
  candle_came : Bytes → OhlcvInterval → OhlcvData W → LiveEvent W
  book_came : Bytes → OrderBookCache W → LiveEvent W
  entry_came : Bytes → ℤ → OrderBookEntry W → LiveEvent W
  unsubscribes : Subscription Bytes → LiveEvent W

-- The abstract stream: functions of a name, and whether there is a connection.
pub record LiveView (W : Type 0) : Type 0 where
  pub last_trade : Bytes → Option (TradeUpdate W)
  pub last_candle : Bytes → Option (OhlcvData W)
  pub last_book : Bytes → Option (OrderBookCache W)
  pub is_connected : Bool

-- A function with another value at one name.
abbrev pub at_name : {V : Type 0} → Bytes → Option V → (Bytes → Option V) → Bytes → Option V
at_name name v f other = if name == other then v else f other

abbrev pub is_some : {A : Type 0} → Option A → Bool
is_some none = false
is_some (some a) = true

module _ {W : Type 0} where
  -- A candle subscription without an interval is an error, and drops nothing.
  abbrev drop_subscription : WebsocketChannel → Subscription Bytes → LiveView W → LiveView W
  drop_subscription trade s v = record v { last_trade = at_name s.pair_item none v.last_trade }
  drop_subscription order_book s v = record v { last_book = at_name s.pair_item none v.last_book }
  drop_subscription ohlcv s v = elim s.parameter [
    | none ↦ v
    | some interval ↦ record v {
      last_candle = at_name (create_ohlcv_sub_id s.pair_item interval) none v.last_candle;
    }
  ]

module _ {W : Type 0} ⦃d : Double W⦄ where
  abbrev pub note : LiveEvent W → LiveView W → LiveView W
  note (trade_came name t) v = record v { last_trade = at_name name (some t) v.last_trade }
  note (candle_came name interval o) v = record v {
    last_candle = at_name (create_ohlcv_sub_id name interval) (some o) v.last_candle;
  }
  note (book_came name cache) v = record v { last_book = at_name name (some cache) v.last_book }
  note (entry_came name time entry) v = record v {
    last_book = at_name name (some (changed_book time entry (v.last_book name))) v.last_book;
  }
  note (unsubscribes s) v = drop_subscription s.channel s v

  abbrev pub notes : List (LiveEvent W) → LiveView W → LiveView W
  notes [] v = v
  notes (e ∷ es) v = notes es (note e v)

module _ {W C : Type 0} ⦃d : Double W⦄ where
  -- The stream itself.
  unfoldable pub happen : LiveEvent W → LiveStream W C → LiveStream W C
  happen (trade_came name t) l = put_trade name t l
  happen (candle_came name interval o) l = put_candle name interval o l
  happen (book_came name cache) l = put_book name cache l
  happen (entry_came name time entry) l = change_book name time entry l
  happen (unsubscribes s) l = after l (set_unsubscribed s l)

  unfoldable pub happens : List (LiveEvent W) → LiveStream W C → LiveStream W C
  happens [] l = l
  happens (e ∷ es) l = happens es (happen e l)

module _ {W C : Type 0} where
  -- The maps hold what the view tells.
  pub record Implements (l : LiveStream W C) (v : LiveView W) : Type 0 where
    pub trades_agree : (name : Bytes) → lookup name l.trades ≡ v.last_trade name
    pub candles_agree : (id : Bytes) → lookup id l.candles ≡ v.last_candle id
    pub books_agree : (name : Bytes) → lookup name l.order_books ≡ v.last_book name
    pub connection_agrees : is_some l.connection ≡ v.is_connected

  set_unsubscribed-Implements :
      (channel : WebsocketChannel) (s : Subscription Bytes) (l : LiveStream W C) (v : LiveView W)
      → s.channel ≡ channel
      → Implements l v
      → Implements (after l (set_unsubscribed s l)) (drop_subscription channel s v)
  unfolding set_unsubscribed
  set_unsubscribed-Implements trade s l v e i =
      rw (set_unsubscribed, e)
        (record {
          trades_agree =
              λ name. ground (arith, lookup-erase s.pair_item name l.trades, i.trades_agree name);
          candles_agree = i.candles_agree;
          books_agree = i.books_agree;
          connection_agrees = i.connection_agrees;
        })
  set_unsubscribed-Implements order_book s l v e i =
      rw (set_unsubscribed, e)
        (record {
          trades_agree = i.trades_agree;
          candles_agree = i.candles_agree;
          books_agree = λ name.
              ground (arith, lookup-erase s.pair_item name l.order_books, i.books_agree name);
          connection_agrees = i.connection_agrees;
        })
  set_unsubscribed-Implements ohlcv s l v e i = elim (Option-cases s.parameter) [
    | inl none_set ↦ rw (set_unsubscribed, e, none_set) i
    | inr (interval, set) ↦
        let id = create_ohlcv_sub_id s.pair_item interval in
        rw (set_unsubscribed, e, set)
          (record {
            trades_agree = i.trades_agree;
            candles_agree =
                λ other. ground (arith, lookup-erase id other l.candles, i.candles_agree other);
            books_agree = i.books_agree;
            connection_agrees = i.connection_agrees;
          })
  ]

module _ {W C : Type 0} ⦃d : Double W⦄ where
  pub happen-Implements :
      (e : LiveEvent W) (l : LiveStream W C) (v : LiveView W)
      → Implements l v
      → Implements (happen e l) (note e v)
  unfolding happen put_trade put_candle put_book change_book lookup
  happen-Implements (trade_came name t) l v i = record {
    trades_agree = λ other.
        ground (arith, lookup-insert_or_assign name other t l.trades, i.trades_agree other);
    candles_agree = i.candles_agree;
    books_agree = i.books_agree;
    connection_agrees = i.connection_agrees;
  }
  happen-Implements (candle_came name interval o) l v i =
      let id = create_ohlcv_sub_id name interval in
      record {
        trades_agree = i.trades_agree;
        candles_agree = λ other.
            ground (arith, lookup-insert_or_assign id other o l.candles, i.candles_agree other);
        books_agree = i.books_agree;
        connection_agrees = i.connection_agrees;
      }
  happen-Implements (book_came name cache) l v i = record {
    trades_agree = i.trades_agree;
    candles_agree = i.candles_agree;
    books_agree = λ other.
        ground (arith, lookup-insert_or_assign name other cache l.order_books, i.books_agree other);
    connection_agrees = i.connection_agrees;
  }
  happen-Implements (entry_came name time entry) l v i =
      let book = changed_book time entry (lookup name l.order_books) in
      record {
        trades_agree = i.trades_agree;
        candles_agree = i.candles_agree;
        books_agree = λ other. ground (
          arith,
          lookup-insert_or_assign name other book l.order_books,
          i.books_agree name,
          i.books_agree other,
        );
        connection_agrees = i.connection_agrees;
      }
  happen-Implements (unsubscribes s) l v i = set_unsubscribed-Implements s.channel s l v refl i

  pub happens-Implements :
      (es : List (LiveEvent W)) (l : LiveStream W C) (v : LiveView W)
      → Implements l v
      → Implements (happens es l) (notes es v)
  unfolding happens
  happens-Implements [] l v i = i
  happens-Implements (e ∷ es) l v i =
      happens-Implements es (happen e l) (note e v) (happen-Implements e l v i)
