-- ===== src/Exchanges/Tests.antt =====
-- Readings of small documents, which stand for what a JSON library makes of the answers.
use marketblocks.Prelude.{
  ℕ, ◌*◌, pos, ◌/ℤ◌, ◌+ℤ◌, ◌*ℤ◌, Bytes, false, Option, some, List, [], ◌∷◌, ◌≡◌, refl, ◌↔◌, length,
  map, lookup, emplace, ◌==◌, nat_equality, bytes_equality, if◌then◌else◌, All,
}
use Prim.Native.Nat.{min}
use mathlib.Core.List.{reverse}
use marketblocks.Double.Fixed.{Fixed, fixed_double, runs_fixed}
use marketblocks.Common.Text.{codes, to_string}
use marketblocks.Trading.Constants.{closed}
use marketblocks.Common.Strings.{int_to_string}
use marketblocks.Common.Retry.{success}
use marketblocks.Common.Json.{
  Read, value, raised, catching, get_long_of, for_each, read_each, prepend_each, emplace_each,
  range,
}
use marketblocks.Trading.Market.{OhlcvData, OrderBookSide, ask, bid, OrderBookEntry, OrderBookState}
use marketblocks.Trading.Order.{OrderConfirmation}
use marketblocks.Exchanges.Documents.{
  Doc, text, number, member_of, items_of, has_of, library, numerals, array, object,
}
use marketblocks.Exchanges.Books.{read_next, read_rounds, read_sides}
use marketblocks.Exchanges.Books.Sides.{read_sides_iff}
use marketblocks.Exchanges.Binance.Results as Binance
use marketblocks.Exchanges.Binance.Results.Answers as BinanceAnswers
use marketblocks.Exchanges.Binance.Results.Success.{
  read_ohlcv-success, read_balances-success, read_order_book-success,
}
use marketblocks.Exchanges.Binance.Results.Fills.{sum, read_confirmation-average}
use marketblocks.Exchanges.Coinbase.Results as Coinbase
use marketblocks.Exchanges.Coinbase.Results.Levels.{read_levels-sides}
use marketblocks.Exchanges.Kraken.Results as Kraken
use marketblocks.Exchanges.Kraken.Results.Levels.{read_book-levels}

-- Entries that may not be read: a zero ends the loop by an exception.
abbrev read_positive : ℕ → Read ℕ
read_positive n = if n == 0 then raised (codes "zero") else value n

read_sides_iff_example :
    (read_sides read_positive read_positive (1 ∷ 2 ∷ 3 ∷ []) (4 ∷ [])
      ≡ value (1 ∷ 2 ∷ 3 ∷ [], 4 ∷ []))
    ↔ ((read_each read_positive (1 ∷ 2 ∷ 3 ∷ []) ≡ value (1 ∷ 2 ∷ 3 ∷ []))
        × (read_each read_positive (4 ∷ []) ≡ value (4 ∷ [])))
read_sides_iff_example =
    read_sides_iff read_positive read_positive (1 ∷ 2 ∷ 3 ∷ []) (4 ∷ []) (1 ∷ 2 ∷ 3 ∷ []) (4 ∷ [])

abbrev candle_doc : ℕ → Doc
candle_doc time = array (
    number (pos time)
    ∷ text (codes "1")
    ∷ text (codes "4")
    ∷ text (codes "1")
    ∷ text (codes "3")
    ∷ text (codes "9")
    ∷ [])

abbrev candles_doc : Doc
candles_doc = array (candle_doc 60_000 ∷ candle_doc 120_000 ∷ [])

abbrev candle : ℕ → OhlcvData Fixed
candle time = record {
  time_stamp = pos time;
  opening = pos 10_000;
  high = pos 40_000;
  low = pos 10_000;
  close = pos 30_000;
  volume = pos 90_000;
}

read_ohlcv_run :
    BinanceAnswers.read_ohlcv Doc ⦃l = library candles_doc⦄ ⦃n = numerals⦄ (codes "[]")
    ≡ some (success (candle 120 ∷ candle 60 ∷ []))
unfolding runs_fixed ◌+ℤ◌ ◌/ℤ◌ BinanceAnswers.read_ohlcv BinanceAnswers.read_candle
    Binance.read_result Binance.read_document prepend_each for_each catching
read_ohlcv_run = refl

read_ohlcv-success_example :
    (json : Doc) × ((library candles_doc).parse (codes "[]") ≡ value json)
    × (has_of json (codes "code") ≡ false)
    × ((oldest_first : List (OhlcvData Fixed)) × (read_each
            (λ (item : Option Bytes × Doc).
              BinanceAnswers.read_candle ⦃l = library candles_doc⦄ ⦃n = numerals⦄ item.1)
            (items_of json)
          ≡ value oldest_first)
        × (candle 120 ∷ candle 60 ∷ [] ≡ reverse oldest_first))
read_ohlcv-success_example =
    read_ohlcv-success Doc ⦃l = library candles_doc⦄ ⦃n = numerals⦄ (codes "[]")
      (candle 120 ∷ candle 60 ∷ []) read_ohlcv_run

-- Two balances of one asset.
abbrev balance_doc : Bytes → Bytes → Doc
balance_doc asset free = object ((codes "asset", text asset) ∷ (codes "free", text free) ∷ [])

abbrev balances_list : Doc
balances_list = array (
    balance_doc (codes "BTC") (codes "2")
    ∷ balance_doc (codes "ETH") (codes "7")
    ∷ balance_doc (codes "BTC") (codes "5")
    ∷ [])

abbrev balances_doc : Doc
balances_doc = object ((codes "balances", balances_list) ∷ [])

abbrev balances : List (Bytes × Fixed)
balances = (codes "BTC", pos 20_000) ∷ (codes "ETH", pos 70_000) ∷ []

read_balances_run :
    BinanceAnswers.read_balances Doc ⦃l = library balances_doc⦄ ⦃n = numerals⦄ (codes "{}")
    ≡ some (success balances)
unfolding runs_fixed BinanceAnswers.read_balances BinanceAnswers.read_balance Binance.read_result
    Binance.read_document emplace_each emplace for_each catching
read_balances_run = refl

read_balances-success_example :
    (json : Doc) × (list : Doc) × ((library balances_doc).parse (codes "{}") ≡ value json)
    × (has_of json (codes "code") ≡ false)
    × (member_of json (codes "balances") ≡ value list)
    × ((entries : List (Bytes × Fixed)) × (read_each
            (λ (item : Option Bytes × Doc).
              BinanceAnswers.read_balance ⦃l = library balances_doc⦄ ⦃n = numerals⦄ item.1)
            (items_of list)
          ≡ value entries)
        × ((asset : Bytes) → lookup asset balances ≡ lookup asset entries))
read_balances-success_example =
    read_balances-success Doc ⦃l = library balances_doc⦄ ⦃n = numerals⦄ (codes "{}") balances
      read_balances_run

abbrev entry_doc : Bytes → Bytes → Doc
entry_doc price volume = array (text price ∷ text volume ∷ number (pos 8) ∷ [])

abbrev asks_doc : Doc
asks_doc = array (entry_doc (codes "10") (codes "1") ∷ entry_doc (codes "11") (codes "2") ∷ [])

abbrev bids_doc : Doc
bids_doc = array (
    entry_doc (codes "9") (codes "4")
    ∷ entry_doc (codes "8") (codes "3")
    ∷ entry_doc (codes "7") (codes "3")
    ∷ [])

abbrev book_doc : Doc
book_doc = object (
    (codes "lastUpdateId", number (pos 5))
    ∷ (codes "bids", bids_doc)
    ∷ (codes "asks", asks_doc)
    ∷ [])

abbrev entry : OrderBookSide → ℕ → ℕ → OrderBookEntry Fixed
entry side price volume = record {
  price = pos (10_000 * price);
  volume = pos (10_000 * volume);
  side = side;
}

abbrev book : OrderBookState Fixed
book = record {
  time_stamp = pos 5;
  asks = entry ask 10 1 ∷ entry ask 11 2 ∷ [];
  bids = entry bid 9 4 ∷ entry bid 8 3 ∷ entry bid 7 3 ∷ [];
}

read_order_book_run :
    BinanceAnswers.read_order_book Doc ⦃l = library book_doc⦄ ⦃n = numerals⦄ (codes "{}")
    ≡ some (success book)
unfolding runs_fixed BinanceAnswers.read_order_book BinanceAnswers.read_book
    Binance.read_order_book_entry Binance.read_result Binance.read_document read_sides read_rounds
    read_next catching
read_order_book_run = refl

read_order_book-success_example :
    (json : Doc) × (asks : Doc) × (bids : Doc) × ((library book_doc).parse (codes "{}")
      ≡ value json)
    × (has_of json (codes "code") ≡ false)
    × (member_of json (codes "asks") ≡ value asks)
    × (member_of json (codes "bids") ≡ value bids)
    × (read_each
          (λ (item : Option Bytes × Doc).
            Binance.read_order_book_entry ⦃l = library book_doc⦄ ⦃n = numerals⦄ ask item.1)
          (items_of asks)
        ≡ value book.asks)
    × (read_each
          (λ (item : Option Bytes × Doc).
            Binance.read_order_book_entry ⦃l = library book_doc⦄ ⦃n = numerals⦄ bid item.1)
          (items_of bids)
        ≡ value book.bids)
    × (get_long_of ⦃l = library book_doc⦄ json (codes "lastUpdateId") ≡ value (pos 5))
read_order_book-success_example =
    read_order_book-success Doc ⦃l = library book_doc⦄ ⦃n = numerals⦄ (codes "{}") book
      read_order_book_run

-- An order filled at two prices.
abbrev fill_doc : Bytes → Bytes → Doc
fill_doc price qty = object ((codes "price", text price) ∷ (codes "qty", text qty) ∷ [])

abbrev confirmation_doc : Doc
confirmation_doc = object (
    (codes "orderId", number (pos 28))
    ∷ (codes "status", text (codes "FILLED"))
    ∷ (codes "origQty", text (codes "4"))
    ∷ (codes "executedQty", text (codes "4"))
    ∷ (
      codes "fills",
      array (fill_doc (codes "10") (codes "3") ∷ fill_doc (codes "14") (codes "1") ∷ []),
    )
    ∷ [])

abbrev confirmation : OrderConfirmation Fixed
confirmation = record {
  order_id = codes "28";
  order_status = closed;
  original_qty = pos 40_000;
  filled_qty = pos 40_000;
  price = pos 110_000;
}

read_confirmation_run :
    BinanceAnswers.read_confirmation ⦃l = library confirmation_doc⦄ ⦃n = numerals⦄ confirmation_doc
    ≡ value confirmation
unfolding runs_fixed ◌+ℤ◌ ◌*ℤ◌ ◌/ℤ◌ int_to_string to_string BinanceAnswers.read_confirmation
    BinanceAnswers.read_fills BinanceAnswers.read_fill BinanceAnswers.add_fill
    Binance.to_order_status for_each
read_confirmation_run = refl

read_confirmation-average_example :
    (list : Doc) × (fills : List (Fixed × Fixed)) × (member_of confirmation_doc (codes "fills")
      ≡ value list)
    × (read_each
          (λ (item : Option Bytes × Doc).
            BinanceAnswers.read_fill ⦃l = library confirmation_doc⦄ ⦃n = numerals⦄ item.1)
          (items_of list)
        ≡ value fills)
    × (pos 110_000
        ≡ fixed_double.div
            (sum (map (λ (f : Fixed × Fixed). fixed_double.mul f.0 f.1) fills))
            (sum (map (λ (f : Fixed × Fixed). f.1) fills)))
read_confirmation-average_example =
    read_confirmation-average ⦃l = library confirmation_doc⦄ ⦃n = numerals⦄ confirmation_doc
      confirmation read_confirmation_run

abbrev levels : List (OrderBookEntry Fixed) × List (OrderBookEntry Fixed)
levels = (entry ask 9 4 ∷ entry ask 8 3 ∷ entry ask 7 3 ∷ [], entry bid 10 1 ∷ entry bid 11 2 ∷ [])

read_levels_run :
    Coinbase.read_levels ⦃l = library book_doc⦄ ⦃n = numerals⦄ bids_doc asks_doc 3 ≡ value levels
unfolding Coinbase.read_levels Coinbase.read_level Coinbase.read_entry_at
    Coinbase.read_order_book_entry for_each range
read_levels_run = refl

read_levels-sides_example :
    (All (λ (e : OrderBookEntry Fixed). e.side ≡ ask) levels.0 × (3 ≡ min 3 3))
    × (All (λ (e : OrderBookEntry Fixed). e.side ≡ bid) levels.1 × (2 ≡ min 3 2))
read_levels-sides_example =
    read_levels-sides ⦃l = library book_doc⦄ ⦃n = numerals⦄ bids_doc asks_doc 3 levels
      read_levels_run

-- The third bid is left out.
abbrev first_levels : OrderBookState Fixed
first_levels = record {
  time_stamp = pos 8;
  asks = entry ask 10 1 ∷ entry ask 11 2 ∷ [];
  bids = entry bid 9 4 ∷ entry bid 8 3 ∷ [];
}

read_book_run : Kraken.read_book ⦃l = library book_doc⦄ ⦃n = numerals⦄ book_doc ≡ value first_levels
unfolding Kraken.read_book Kraken.read_level Kraken.read_order_book_entry for_each range
read_book_run = refl

read_book-levels_example :
    (asks : Doc) × (member_of book_doc (codes "asks") ≡ value asks)
    × (All (λ (e : OrderBookEntry Fixed). e.side ≡ ask) first_levels.asks
        × (2 ≡ length (items_of asks))
        × All (λ (e : OrderBookEntry Fixed). e.side ≡ bid) first_levels.bids
        × (2 ≡ length (items_of asks)))
read_book-levels_example =
    read_book-levels ⦃l = library book_doc⦄ ⦃n = numerals⦄ book_doc first_levels read_book_run
