-- ===== src/Exchanges/Kraken/Api/Tests.antt =====
-- Requests to a network that gives one answer.
use marketblocks.Prelude.{
  ℕ, ◌+◌, pos, Bytes, some, [], ◌∷◌, ◌++◌, ◌≡◌, refl, Map, lookup, emplace, bytes_equality,
}
use marketblocks.Double.Fixed.{Fixed, fixed_double}
use marketblocks.Common.Text.{codes}
use marketblocks.Common.Strings.{int_to_string}
use marketblocks.Common.Run.{returns}
use marketblocks.Common.Json.{value, catching, for_each, range}
use marketblocks.Networking.Http.{HttpService}
use marketblocks.Trading.Constants.{stop_loss}
use marketblocks.Trading.Pair.{TradablePair, pair_equality, pair_to_string}
use marketblocks.Trading.Market.{ask, bid, OrderBookState}
use marketblocks.Exchanges.Documents.{Doc, text, number, nothing, library, numerals, array, object}
use marketblocks.Exchanges.Requests.{
  send_http_request, value_or_throw, create_pair_result_map, pair_lookup, add_results,
}
use marketblocks.Exchanges.Requests.Prices.{create_pair_result_map-lookup}
use marketblocks.Exchanges.Kraken.Results as Kraken
use marketblocks.Exchanges.Kraken.Results.Answers as Answers
use marketblocks.Exchanges.Kraken.Api.{
  Signing, KrakenApi, order_type_name, send_public_request, get_order_book,
}
use marketblocks.Exchanges.Kraken.Api.Answered.{
  to_order_type-order_type_name, IsAnsweredBook, get_order_book-IsAnsweredBook,
}

to_order_type-order_type_name_example : Kraken.to_order_type (codes "stop-loss") ≡ value stop_loss
unfolding order_type_name
to_order_type-order_type_name_example =
    to_order_type-order_type_name stop_loss (codes "stop-loss") refl

abbrev btc : TradablePair
btc = record { asset = codes "BTC"; price_unit = codes "USD" }

abbrev eth : TradablePair
eth = record { asset = codes "ETH"; price_unit = codes "USD" }

abbrev named : Map Bytes ℕ
named = (codes "ETHUSD", 7) ∷ (codes "BTCUSD", 9) ∷ []

create_pair_result_map-lookup_example :
    (lookup (codes "BTCUSD") (pair_lookup (btc ∷ eth ∷ [])) ≡ some btc)
    × (lookup (codes "BTCUSD") named ≡ some 9)
unfolding create_pair_result_map add_results pair_lookup emplace lookup pair_to_string
create_pair_result_map-lookup_example =
    create_pair_result_map-lookup (btc ∷ eth ∷ []) named ((eth, 7) ∷ (btc, 9) ∷ []) btc 9 refl refl

abbrev entry_doc : Bytes → Bytes → Doc
entry_doc price time = array (text price ∷ text (codes "1") ∷ number (pos 8) ∷ [])

abbrev answer : Doc
answer = object (
    (codes "error", nothing)
    ∷ (
      codes "result",
      object (
          (
            codes "XXBTZUSD",
            object (
                (codes "asks", array (entry_doc (codes "10") (codes "8") ∷ []))
                ∷ (codes "bids", array (entry_doc (codes "9") (codes "7") ∷ []))
                ∷ []),
          )
          ∷ []),
    )
    ∷ [])

-- The network counts the requests.
abbrev service : HttpService ℕ
service = λ request s. returns (record { response_code = pos 200; message = codes "{}" }) (s + 1)

abbrev signing : Signing Fixed ℕ
signing = record {
  sha256 = λ bytes. bytes;
  hmac_sha512 = λ bytes key. key ++ bytes;
  b64_encode = λ bytes. bytes;
  double_to_string = int_to_string;
  clock = λ s. s;
}

abbrev api : KrakenApi
api = record { public_key = codes "k"; decoded_private_key = codes "p" }

abbrev book : OrderBookState Fixed
book = record {
  time_stamp = pos 8;
  asks = record { price = pos 100_000; volume = pos 10_000; side = ask } ∷ [];
  bids = record { price = pos 90_000; volume = pos 10_000; side = bid } ∷ [];
}

get_order_book_run :
    get_order_book signing service api Doc ⦃l = library answer⦄ ⦃n = numerals⦄ btc (pos 5) 0
    ≡ returns book 1
unfolding get_order_book send_public_request send_http_request value_or_throw
    Answers.read_order_book Kraken.read_result Kraken.read_document Kraken.get_error
    Kraken.first_message Kraken.read_book Kraken.read_level Kraken.read_order_book_entry catching
    for_each range
get_order_book_run = refl

get_order_book-IsAnsweredBook_example :
    IsAnsweredBook Doc ⦃l = library answer⦄ service btc (pos 5) 0 1 book
get_order_book-IsAnsweredBook_example =
    get_order_book-IsAnsweredBook Doc ⦃l = library answer⦄ ⦃n = numerals⦄ signing service api btc
      (pos 5) 0 1 book get_order_book_run
