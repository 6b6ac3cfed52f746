-- ===== src/Exchanges/Kraken/Stream/Updated.antt =====
-- What a message of Kraken can do to its stream: some updates under one name, whose queries the abstract
-- stream answers.
use marketblocks.Prelude.{Bytes, [], eqb, ◌==◌, bytes_equality}
use marketblocks.Double.{Double}
use marketblocks.Common.Text.{codes}
use marketblocks.Common.Strings.{contains}
use marketblocks.Common.Run.{Run, and_then, Ends, Ends-map, if-Ends}
use marketblocks.Common.Json.{
  Read, value, raised, unspecified, ◌>>=◌, read_in, JsonLibrary, Numerals,
}
use marketblocks.Trading.Market.{OrderBookSide, ask, bid}
use marketblocks.Websockets.Live.{LiveWorld, LiveHandlers}
use marketblocks.Websockets.Live.Passive.{IsPassive}
use marketblocks.Websockets.Live.Updated.{
  IsUpdated, IsUpdated-refl, read-IsUpdated, then-IsUpdated, run_each-IsUpdated,
  update_trade-IsUpdated, update_ohlcv-IsUpdated, initialise_order_book-IsUpdated,
  update_order_book-IsUpdated,
}
use marketblocks.Exchanges.Kraken.Stream.{
  interval_of, minute_text, from_end, read_trade, read_channel_candle, read_change,
  create_order_book_cache,
}
use marketblocks.Exchanges.Kraken.Stream.Messages.{
  process_trade_message, process_ohlcv_message, process_changes, process_order_book_updates,
  process_order_book_message, process_channel_message, on_message,
}

module _ {J W C S : Type 0} ⦃l : JsonLibrary J⦄ ⦃n : Numerals J W⦄ ⦃d : Double W⦄
    (handlers : LiveHandlers W C S) (trades : IsPassive handlers.trade_update_handlers)
    (candles : IsPassive handlers.ohlcv_update_handlers)
    (books : IsPassive handlers.order_book_update_handlers) where
  process_trade_message-IsUpdated :
      (name : Bytes) (json : J) (w : LiveWorld W C S)
      → Ends (IsUpdated name w) (process_trade_message handlers name json w)
  unfolding process_trade_message
  process_trade_message-IsUpdated name json w = read-IsUpdated name w (l.index json 1) _ λ list.
      run_each-IsUpdated name _ (l.items list) w λ item t.
        read-IsUpdated name t (read_trade item.1) _
          λ trade. update_trade-IsUpdated handlers trades candles books name trade t

  process_ohlcv_message-IsUpdated :
      (name channel : Bytes) (json : J) (w : LiveWorld W C S)
      → Ends (IsUpdated name w) (process_ohlcv_message handlers name channel json w)
  unfolding process_ohlcv_message
  process_ohlcv_message-IsUpdated name channel json w =
      read-IsUpdated name w (l.index json 1) _ λ candle.
        read-IsUpdated name w (minute_text channel >>= n.stoi) _ λ minutes.
          read-IsUpdated name w (read_channel_candle candle) _
            λ o. update_ohlcv-IsUpdated handlers trades candles books name (interval_of minutes) o w

  process_changes-IsUpdated :
      (name : Bytes) (side : OrderBookSide) (changes : J) (w : LiveWorld W C S)
      → Ends (IsUpdated name w) (process_changes handlers name side changes w)
  unfolding process_changes
  process_changes-IsUpdated name side changes w =
      run_each-IsUpdated name _ (l.items changes) w λ item t.
        read-IsUpdated name t (read_change side item.1) _ λ change.
          update_order_book-IsUpdated handlers trades candles books name change.1 change.0 t

  process_order_book_updates-IsUpdated :
      (name : Bytes) (updates : J) (w : LiveWorld W C S)
      → Ends (IsUpdated name w) (process_order_book_updates handlers name updates w)
  unfolding process_order_book_updates
  process_order_book_updates-IsUpdated name updates w =
      if-Ends (IsUpdated name w) (l.has_member updates (codes "a")) _ _
        (read-IsUpdated name w (l.member updates (codes "a")) _
          λ changes. process_changes-IsUpdated name ask changes w)
        (read-IsUpdated name w (l.member updates (codes "b")) _
          λ changes. process_changes-IsUpdated name bid changes w)

  process_order_book_message-IsUpdated :
      (name : Bytes) (json : J) (w : LiveWorld W C S)
      → Ends (IsUpdated name w) (process_order_book_message handlers name json w)
  unfolding process_order_book_message
  process_order_book_message-IsUpdated name json w =
      read-IsUpdated name w (l.index json 1) _ λ first.
        if-Ends (IsUpdated name w) (eqb (l.size json) 4) _ _
          (if-Ends (IsUpdated name w) (l.has_member first (codes "as")) _ _
            (read-IsUpdated name w (create_order_book_cache first) _
              λ cache. initialise_order_book-IsUpdated handlers trades candles books name cache w)
            (process_order_book_updates-IsUpdated name first w))
          (then-IsUpdated name w (process_order_book_updates handlers name first w) _
            (process_order_book_updates-IsUpdated name first w)
            λ u t.
              read-IsUpdated name t (l.index json 2) _
                λ second. process_order_book_updates-IsUpdated name second t)

  process_channel_message-IsUpdated :
      (name channel : Bytes) (json : J) (w : LiveWorld W C S)
      → Ends (IsUpdated name w) (process_channel_message handlers name channel json w)
  unfolding process_channel_message
  process_channel_message-IsUpdated name channel json w =
      let P = IsUpdated name w in
      if-Ends P (channel == codes "trade") _ _ (process_trade_message-IsUpdated name json w) (
        if-Ends P (contains channel (codes "ohlc")) _ _
          (process_ohlcv_message-IsUpdated name channel json w)
          (if-Ends P (contains channel (codes "book")) _ _
            (process_order_book_message-IsUpdated name json w) (IsUpdated-refl name w)))

-- A read that changes nothing, before the name is known.
read-Ends :
    {S A B : Type 0} (P : S → Type 0) (w : S) (r : Read A) (f : A → S → Run S B)
    → P w
    → ((a : A) → Ends P (f a w))
    → Ends P (and_then (read_in r w) f)
read-Ends P w (value a) f p h = h a
read-Ends P w (raised e) f p h = p
read-Ends P w unspecified f p h = _

module _ (J : Type 0) {W C S : Type 0} ⦃l : JsonLibrary J⦄ ⦃n : Numerals J W⦄ ⦃d : Double W⦄
    (handlers : LiveHandlers W C S) where
  -- Whatever a message says, and whether `on_message` returns or throws, where it is defined it leaves the
  -- stream as some updates under one name leave it, if the handlers keep the stream as it is.
  pub on_message-IsUpdated :
      (message : Bytes) (w : LiveWorld W C S)
      → IsPassive handlers.trade_update_handlers
      → IsPassive handlers.ohlcv_update_handlers
      → IsPassive handlers.order_book_update_handlers
      → Ends (λ w'. (name : Bytes) × IsUpdated name w w') (on_message J handlers message w)
  unfolding on_message
  on_message-IsUpdated message w trades candles books =
      let P : LiveWorld W C S → Type 0 = λ w'. (name : Bytes) × IsUpdated name w w' in
      let same : P w = ([], IsUpdated-refl [] w) in
      read-Ends P w (l.parse message) _ same λ json.
        if-Ends P (l.is_array json) _ _
          (read-Ends P w (from_end json 2 >>= l.get_string) _ same λ channel.
            read-Ends P w (from_end json 1 >>= l.get_string) _ same λ name.
              Ends-map (IsUpdated name w) P (process_channel_message handlers name channel json w)
                (λ w' p. (name, p))
                (process_channel_message-IsUpdated handlers trades candles books name channel json
                  w))
          same
