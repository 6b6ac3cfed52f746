-- ===== src/Exchanges/Kraken/Results/Levels.antt =====
-- The order book that is read of an answer of Kraken: how many entries it has, and their sides.
use marketblocks.Prelude.{
  ℕ, zero, suc, pos, ◌≡◌, sym, ◌∙◌, ap, [], ◌∷◌, ◌++◌, length, All, All-append, length-append,
  arith,
}
use mathlib.Core.Path.{subst}
use marketblocks.Common.Text.{codes}
use marketblocks.Common.Json.{
  value, ◌>>=◌, JsonLibrary, Numerals, stod_at, get_long_at, range, for_each,
}
use marketblocks.Common.Json.Loops.{value_inj, bind-value, for_each-range}
use marketblocks.Trading.Market.{OrderBookSide, ask, bid, OrderBookEntry, OrderBookState}
use marketblocks.Exchanges.Kraken.Results.{read_order_book_entry, read_level, read_book}

-- What has been read after some rounds: an entry of each side in each of them.
abbrev IsRead : {W : Type 0} → ℕ → OrderBookState W → Type 0
IsRead {W} i book =
    All (λ (e : OrderBookEntry W). e.side ≡ ask) book.asks
    × (length book.asks ≡ i)
    × All (λ (e : OrderBookEntry W). e.side ≡ bid) book.bids
    × (length book.bids ≡ i)

module _ {W : Type 0} where
  add_level :
      (i : ℕ) (book next : OrderBookState W) (a b : OrderBookEntry W)
      → a.side ≡ ask
      → b.side ≡ bid
      → next.asks ≡ book.asks ++ a ∷ []
      → next.bids ≡ book.bids ++ b ∷ []
      → IsRead i book
      → IsRead (suc i) next
  add_level i book next a b p q f g (asks, count, bids, count') = (
    subst (All (λ (e : OrderBookEntry W). e.side ≡ ask)) (sym f)
        (All-append (λ (e : OrderBookEntry W). e.side ≡ ask) book.asks (a ∷ []) asks (p, _)),
    rw f (omega (arith, length-append book.asks (a ∷ []))),
    subst (All (λ (e : OrderBookEntry W). e.side ≡ bid)) (sym g)
        (All-append (λ (e : OrderBookEntry W). e.side ≡ bid) book.bids (b ∷ []) bids (q, _)),
    rw g (omega (arith, length-append book.bids (b ∷ []))),
  )

module _ {J W : Type 0} ⦃l : JsonLibrary J⦄ ⦃n : Numerals J W⦄ where
  read_order_book_entry-side :
      (side : OrderBookSide) (element : J) (e : OrderBookEntry W)
      → read_order_book_entry side element ≡ value e
      → e.side ≡ side
  unfolding read_order_book_entry
  read_order_book_entry-side side element e h =
      let (price, p, k) =
        bind-value (stod_at element 0)
          (λ price.
            stod_at element 1
            >>= (λ volume. value record { price = price; volume = volume; side = side }))
          e h in
      let (volume, q, same) =
        bind-value (stod_at element 1)
          (λ volume. value record { price = price; volume = volume; side = side }) e k in
      sym (ap (λ (e : OrderBookEntry W). e.side) (value_inj same))

  read_level-entries :
      (asks bids : J) (i : ℕ) (book next : OrderBookState W)
      → read_level asks bids i book ≡ value next
      → (a b : OrderBookEntry W) × (a.side ≡ ask)
        × (b.side ≡ bid)
        × (next.asks ≡ book.asks ++ a ∷ [])
        × (next.bids ≡ book.bids ++ b ∷ [])
  unfolding read_level
  read_level-entries asks bids i book next h =
      let (x, _, h1) = bind-value (l.index asks i) _ next h in
      let (a, pa, h2) = bind-value (read_order_book_entry ask x) _ next h1 in
      let (y, _, h3) = bind-value (l.index bids i) _ next h2 in
      let (b, pb, h4) = bind-value (read_order_book_entry bid y) _ next h3 in
      let (_, _, h5) = bind-value (get_long_at x 2) _ next h4 in
      let (_, _, h6) = bind-value (get_long_at y 2) _ next h5 in
      let same = value_inj h6 in
      (
        a,
        b,
        read_order_book_entry-side ask x a pa,
        read_order_book_entry-side bid y b pb,
        sym (ap (λ (book : OrderBookState W). book.asks) same),
        sym (ap (λ (book : OrderBookState W). book.bids) same),
      )

  levels-IsRead :
      (asks bids : J) (i : ℕ) (start book : OrderBookState W)
      → IsRead 0 start
      → for_each (read_level asks bids) (range i) start ≡ value book
      → IsRead i book
  unfolding for_each range
  levels-IsRead asks bids zero start book p h = subst (IsRead 0) (value_inj h) p
  levels-IsRead asks bids (suc i) start book p h =
      let (before, f, k) =
        bind-value (for_each (read_level asks bids) (range i) start) (read_level asks bids i) book
          (sym (for_each-range (read_level asks bids) i start) ∙ h) in
      let (a, b, sa, sb, as', bs) = read_level-entries asks bids i before book k in
      add_level i before book a b sa sb as' bs (levels-IsRead asks bids i start before p f)

  -- Where a book is read, it has an entry of each side for every ask of the document: bids beyond the
  -- number of the asks are left out, and each entry is marked with its own side.
  pub read_book-levels :
      (element : J) (book : OrderBookState W)
      → read_book element ≡ value book
      → (asks : J) × (l.member element (codes "asks") ≡ value asks)
        × (All (λ (e : OrderBookEntry W). e.side ≡ ask) book.asks
            × (length book.asks ≡ l.size asks)
            × All (λ (e : OrderBookEntry W). e.side ≡ bid) book.bids
            × (length book.bids ≡ l.size asks))
  unfolding read_book
  read_book-levels element book h =
      let (asks, p, k) = bind-value (l.member element (codes "asks")) _ book h in
      let (bids, q, m) = bind-value (l.member element (codes "bids")) _ book k in
      (
        asks,
        p,
        levels-IsRead asks bids (l.size asks) record { time_stamp = pos 0; asks = []; bids = [] }
            book (_, omega arith, _, omega arith) m,
      )
