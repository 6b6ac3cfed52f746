-- ===== src/Exchanges/Binance/Results/Success.antt =====
-- What a successful reading of an answer of Binance says about the document.
use marketblocks.Prelude.{
  ℤ, Bytes, false, ◌≡◌, sym, ◌∙◌, ap, inl, inr, Option, some, List, Map, lookup, arith, Bool-cases,
  bytes_equality,
}
use mathlib.Core.List.{reverse}
use marketblocks.Common.Text.{codes}
use marketblocks.Common.Retry.{success, failure}
use marketblocks.Common.Json.{
  Read, value, ◌>>=◌, JsonLibrary, Numerals, get_long_of, get_string_of, read_each, prepend_each,
  emplace_each,
}
use marketblocks.Common.Json.Loops.{
  value_inj, success_inj, bind-value, catching-success, prepend_each-reverse, emplace_each-lookup,
}
use marketblocks.Trading.Market.{OhlcvData, ask, bid, OrderBookEntry, OrderBookState}
use marketblocks.Exchanges.Books.{read_sides}
use marketblocks.Exchanges.Books.Sides.{read_sides_iff}
use marketblocks.Exchanges.Binance.Results.{read_order_book_entry, read_document, read_result}
use marketblocks.Exchanges.Binance.Results.Answers.{
  read_candle, read_ohlcv, read_book, read_order_book, read_balance, read_balances,
}

module _ {J : Type 0} ⦃l : JsonLibrary J⦄ where
  read_document-success :
      {T : Type 0} (reader : J → Read T) (json : J) (v : T)
      → read_document reader json ≡ value (success v)
      → (l.has_member json (codes "code") ≡ false) × (reader json ≡ value v)
  unfolding read_document
  read_document-success reader json v h = elim (Bool-cases (l.has_member json (codes "code"))) [
    | inl p ↦
        let (e, q, k) =
          bind-value (get_string_of json (codes "msg")) (λ e. value (failure e)) (success v)
            (rw p at h) in
        ground arith
    | inr p ↦
        let (w, q, k) = bind-value (reader json) (λ v. value (success v)) (success v) (rw p at h) in
        (p, q ∙ ap value (success_inj (value_inj k)))
  ]

  read_result-success :
      {T : Type 0} (reader : J → Read T) (text : Bytes) (v : T)
      → read_result reader text ≡ some (success v)
      → (json : J) × (l.parse text ≡ value json)
        × (l.has_member json (codes "code") ≡ false)
        × (reader json ≡ value v)
  unfolding read_result
  read_result-success reader text v h =
      let (json, p, k) =
        bind-value (l.parse text) (read_document reader) (success v)
          (catching-success (l.parse text >>= read_document reader) v h) in
      let (no_code, read) = read_document-success reader json v k in (json, p, no_code, read)

abbrev book_of :
    {W : Type 0} → ℤ → List (OrderBookEntry W) × List (OrderBookEntry W) → OrderBookState W
book_of time sides = record { time_stamp = time; asks = sides.0; bids = sides.1 }

module _ {J W : Type 0} ⦃l : JsonLibrary J⦄ ⦃n : Numerals J W⦄ where
  read_book-value :
      (json : J) (book : OrderBookState W)
      → read_book json ≡ value book
      → (asks bids : J) × (l.member json (codes "asks") ≡ value asks)
        × (l.member json (codes "bids") ≡ value bids)
        × (read_each (λ (item : Option Bytes × J). read_order_book_entry ask item.1) (l.items asks)
            ≡ value book.asks)
        × (read_each (λ (item : Option Bytes × J). read_order_book_entry bid item.1) (l.items bids)
            ≡ value book.bids)
        × (get_long_of json (codes "lastUpdateId") ≡ value book.time_stamp)
  unfolding read_book
  read_book-value json book h =
      let ra : Option Bytes × J → Read (OrderBookEntry W) =
        λ item. read_order_book_entry ask item.1 in
      let rb : Option Bytes × J → Read (OrderBookEntry W) =
        λ item. read_order_book_entry bid item.1 in
      let last : List (OrderBookEntry W) × List (OrderBookEntry W) → Read (OrderBookState W) =
        λ sides. get_long_of json (codes "lastUpdateId") >>= (λ time. value (book_of time sides)) in
      let both : J → J → Read (OrderBookState W) =
        λ asks bids. read_sides ra rb (l.items asks) (l.items bids) >>= last in
      let (asks, p, k) =
        bind-value (l.member json (codes "asks"))
          (λ asks. l.member json (codes "bids") >>= both asks) book h in
      let (bids, q, m) = bind-value (l.member json (codes "bids")) (both asks) book k in
      let (sides, r, o) = bind-value (read_sides ra rb (l.items asks) (l.items bids)) last book m in
      let (time, t, same) =
        bind-value (get_long_of json (codes "lastUpdateId")) (λ time. value (book_of time sides))
          book o in
      let (ea, eb) = (read_sides_iff ra rb (l.items asks) (l.items bids) sides.0 sides.1).0 r in
      let equal = value_inj same in
      (
        asks,
        bids,
        p,
        q,
        ea ∙ ap (λ (b : OrderBookState W). value b.asks) equal,
        eb ∙ ap (λ (b : OrderBookState W). value b.bids) equal,
        t ∙ ap (λ (b : OrderBookState W). value b.time_stamp) equal,
      )

module _ (J : Type 0) {W : Type 0} ⦃l : JsonLibrary J⦄ ⦃n : Numerals J W⦄ where
  -- Where the reading of candles succeeds, the text is a document without a code, each of its items is
  -- read as a candle, and the candles are these in the opposite order.
  pub read_ohlcv-success :
      (text : Bytes) (candles : List (OhlcvData W))
      → read_ohlcv J text ≡ some (success candles)
      → (json : J) × (l.parse text ≡ value json)
        × (l.has_member json (codes "code") ≡ false)
        × ((oldest_first : List (OhlcvData W)) × (read_each
                (λ (item : Option Bytes × J). read_candle item.1)
                (l.items json)
              ≡ value oldest_first)
            × (candles ≡ reverse oldest_first))
  unfolding read_ohlcv
  read_ohlcv-success text candles h =
      let read : Option Bytes × J → Read (OhlcvData W) = λ item. read_candle item.1 in
      let (json, p, q, k) =
        read_result-success (λ json. prepend_each read (l.items json)) text candles h in
      let (cs, r, same) =
        bind-value (read_each read (l.items json)) (λ cs. value (reverse cs)) candles
          (sym (prepend_each-reverse read (l.items json)) ∙ k) in
      (json, p, q, (cs, r, sym (value_inj same)))

  -- Where the reading of balances succeeds, the text is a document without a code, each item of its
  -- member `balances` is read as an asset with its balance, and the map gives for every asset the first
  -- balance that the list has of it.
  pub read_balances-success :
      (text : Bytes) (balances : Map Bytes W)
      → read_balances J text ≡ some (success balances)
      → (json list : J) × (l.parse text ≡ value json)
        × (l.has_member json (codes "code") ≡ false)
        × (l.member json (codes "balances") ≡ value list)
        × ((entries : List (Bytes × W)) × (read_each
                (λ (item : Option Bytes × J). read_balance item.1)
                (l.items list)
              ≡ value entries)
            × ((asset : Bytes) → lookup asset balances ≡ lookup asset entries))
  unfolding read_balances
  read_balances-success text balances h =
      let read : Option Bytes × J → Read (Bytes × W) = λ item. read_balance item.1 in
      let (json, p, q, k) =
        read_result-success
          (λ json. l.member json (codes "balances") >>= (λ list. emplace_each read (l.items list)))
          text balances h in
      let (list, m, k2) =
        bind-value (l.member json (codes "balances")) (λ list. emplace_each read (l.items list))
          balances k in
      (json, list, p, q, m, emplace_each-lookup read (l.items list) balances k2)

  -- Where the reading of an order book succeeds, the text is a document without a code, each item of its
  -- members `asks` and `bids` is read as an entry of its side, and the book has these entries in their
  -- order, with the number `lastUpdateId` as its time.
  pub read_order_book-success :
      (text : Bytes) (book : OrderBookState W)
      → read_order_book J text ≡ some (success book)
      → (json asks bids : J) × (l.parse text ≡ value json)
        × (l.has_member json (codes "code") ≡ false)
        × (l.member json (codes "asks") ≡ value asks)
        × (l.member json (codes "bids") ≡ value bids)
        × (read_each (λ (item : Option Bytes × J). read_order_book_entry ask item.1) (l.items asks)
            ≡ value book.asks)
        × (read_each (λ (item : Option Bytes × J). read_order_book_entry bid item.1) (l.items bids)
            ≡ value book.bids)
        × (get_long_of json (codes "lastUpdateId") ≡ value book.time_stamp)
  unfolding read_order_book
  read_order_book-success text book h =
      let (json, p, q, k) = read_result-success {J = J} read_book text book h in
      let (asks, bids, a, b, es, fs, time) = read_book-value json book k in
      (json, asks, bids, p, q, a, b, es, fs, time)
