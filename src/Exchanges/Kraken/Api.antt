-- ===== src/Exchanges/Kraken/Api.antt =====
-- exchanges/kraken/kraken.h and .cpp: `class kraken_api`, the requests to Kraken. The network, with the
-- clock, is a state; hashes, encodings and the texts of doubles are the libraries'.
pub mod Answered
pub mod Tests
use marketblocks.Prelude.{
  ℕ, ℤ, pos, Bytes, Bool, Option, none, some, List, [], ◌∷◌, ◌++◌, foldl, ◌==◌, ◌/◌, ◌-◌, length,
  take, Map, bytes_equality, if◌then◌else◌,
}
use marketblocks.Common.Text.{codes, to_string}
use marketblocks.Common.Strings.{int_to_string}
use marketblocks.Common.Run.{
  Run, returns, throws, undefined, and_then, failed, out_of_range, or_undefined,
}
use marketblocks.Common.Retry.{Result}
use marketblocks.Common.Json.{Read, value, raised, ◌>>=◌, read_in, JsonLibrary, Numerals}
use marketblocks.Double.{Double}
use marketblocks.Networking.Url.{UrlQueryBuilder, url_query_builder, add_parameter, build_url}
use marketblocks.Networking.Http.{
  HttpRequest, HttpService, get_verb, post_verb, new_request, add_header, set_content,
}
use marketblocks.Trading.Constants.{
  TradeAction, sell, buy, OrderType, market, limit, stop_loss, trailing_stop_loss, take_profit,
}
use marketblocks.Trading.Pair.{TradablePair, pair_equality, pair_to_string}
use marketblocks.Trading.Market.{OhlcvData, OrderBookState}
use marketblocks.Trading.Order.{OrderRequest, OrderDescription, get, asset_price, volume_parameter}
use marketblocks.Websockets.Constants.{OhlcvInterval, to_seconds}
use marketblocks.Exchanges.Status.{ExchangeStatus}
use marketblocks.Exchanges.Requests.{send_http_request, create_pair_result_map}
use marketblocks.Exchanges.Kraken.Results.Answers as Answers

-- What the libraries compute for a request.
pub record Signing (W S : Type 0) : Type 0 where
  pub sha256 : Bytes → Bytes
  pub hmac_sha512 : Bytes → Bytes → Bytes
  pub b64_encode : Bytes → Bytes
  -- `std::to_string` of a double
  pub double_to_string : W → Bytes
  -- The milliseconds since the epoch
  pub clock : S → ℕ

pub record KrakenApi : Type 0 where
  pub public_key : Bytes
  pub decoded_private_key : Bytes

unfoldable pub order_type_name : OrderType → Read Bytes
order_type_name limit = value (codes "limit")
order_type_name market = value (codes "market")
order_type_name stop_loss = value (codes "stop-loss")
order_type_name take_profit = value (codes "take-profit")
order_type_name trailing_stop_loss = raised (codes "Order Type not recognized")

unfoldable pub action_name : TradeAction → Bytes
action_name buy = codes "buy"
action_name sell = codes "sell"

-- The names of the pairs, each with a comma behind it.
abbrev names_with_commas : List TradablePair → Bytes
names_with_commas = foldl (λ names pair. names ++ pair_to_string pair ++ 44 ∷ []) []

-- `none` is `pop_back` of an empty text.
unfoldable pub create_pair_list : List TradablePair → Option Bytes
create_pair_list [] = none
create_pair_list (pair ∷ pairs) =
    let names = names_with_commas (pair ∷ pairs) in some (take (length names - 1) names)

unfoldable pub build_kraken_path : Bytes → Bytes → Bytes
build_kraken_path access method = codes "/0/" ++ access ++ 47 ∷ method

abbrev pair_query : TradablePair → UrlQueryBuilder
pair_query pair = add_parameter (codes "pair") (pair_to_string pair) url_query_builder

module _ {W S : Type 0} (signing : Signing W S) (service : HttpService S) (api : KrakenApi) where
  unfoldable pub get_nonce : S → Bytes
  get_nonce s = to_string (signing.clock s)

  unfoldable pub compute_api_sign : Bytes → Bytes → Bytes → Bytes
  compute_api_sign path post_data nonce =
      signing.b64_encode
        (signing.hmac_sha512 (path ++ signing.sha256 (nonce ++ post_data)) api.decoded_private_key)

  unfoldable pub send_public_request :
      {T : Type 0} → Bytes → (Bytes → Option (Result T)) → Bytes → S → Run S T
  unfolding build_kraken_path build_url new_request send_http_request
  send_public_request method reader query s =
      let url =
        build_url (codes "https://api.kraken.com") (build_kraken_path (codes "public") method)
          query in
      send_http_request service (new_request get_verb url) reader s

  unfoldable pub post_data_of : Bytes → Bytes → Bytes
  post_data_of nonce [] = codes "nonce=" ++ nonce
  post_data_of nonce (c ∷ query) = codes "nonce=" ++ nonce ++ 38 ∷ c ∷ query

  unfoldable pub private_request : Bytes → Bytes → Bytes → HttpRequest
  unfolding compute_api_sign post_data_of build_kraken_path build_url new_request add_header
      set_content
  private_request nonce method query =
      let post_data = post_data_of nonce query in
      let path = build_kraken_path (codes "private") method in
      set_content post_data (
        add_header (codes "Accept") (codes "application/json") (
          add_header (codes "Content-Type") (codes "application/x-www-form-urlencoded") (
            add_header (codes "API-Sign") (compute_api_sign path post_data nonce) (
              add_header (codes "API-Key") api.public_key
                (new_request post_verb (build_url (codes "https://api.kraken.com") path []))))))

  unfoldable pub send_private_request :
      {T : Type 0} → Bytes → (Bytes → Option (Result T)) → Bytes → S → Run S T
  unfolding get_nonce private_request send_http_request
  send_private_request method reader query s =
      send_http_request service (private_request (get_nonce s) method query) reader s

  module _ (J : Type 0) ⦃l : JsonLibrary J⦄ ⦃n : Numerals J W⦄ where
    unfoldable pub get_status : S → Run S ExchangeStatus
    unfolding send_public_request
    get_status = send_public_request (codes "SystemStatus") (Answers.read_system_status J) []

    unfoldable pub get_tradable_pairs : S → Run S (List TradablePair)
    unfolding send_public_request
    get_tradable_pairs = send_public_request (codes "AssetPairs") (Answers.read_tradable_pairs J) []

    -- `none` seconds is an interval that has no length: the source then reads an undefined number.
    unfoldable pub get_ohlcv : TradablePair → OhlcvInterval → ℤ → S → Run S (List (OhlcvData W))
    unfolding send_public_request add_parameter
    get_ohlcv pair interval count s = and_then (or_undefined (to_seconds interval) s) λ seconds s.
        send_public_request (codes "OHLC") (λ text. Answers.read_ohlcv_data J text count)
          (add_parameter (codes "interval") (to_string (seconds / 60)) (pair_query pair)).query s

    unfoldable pub get_price : TradablePair → S → Run S W
    unfolding send_public_request add_parameter
    get_price pair =
        send_public_request (codes "Ticker") (Answers.read_price J) (pair_query pair).query

    unfoldable pub get_prices : List TradablePair → S → Run S (Map TradablePair W)
    unfolding send_public_request add_parameter create_pair_list create_pair_result_map
    get_prices pairs s = and_then (or_undefined (create_pair_list pairs) s) λ list s.
        and_then
          (send_public_request (codes "Ticker") (Answers.read_prices J)
            (add_parameter (codes "pair") list url_query_builder).query s)
          λ named s. elim (create_pair_result_map pairs named) [
            | none ↦ throws out_of_range s
            | some prices ↦ returns prices s
          ]

    unfoldable pub get_order_book : TradablePair → ℤ → S → Run S (OrderBookState W)
    unfolding send_public_request add_parameter
    get_order_book pair depth =
        send_public_request (codes "Depth") (Answers.read_order_book J)
          (add_parameter (codes "count") (int_to_string depth) (pair_query pair)).query

    unfoldable pub get_fee : TradablePair → S → Run S W
    unfolding send_private_request add_parameter
    get_fee pair =
        send_private_request (codes "TradeVolume") (Answers.read_fee J) (pair_query pair).query

    unfoldable pub get_balances : S → Run S (Map Bytes W)
    unfolding send_private_request
    get_balances = send_private_request (codes "Balance") (Answers.read_balances J) []

    unfoldable pub get_open_orders : S → Run S (List (OrderDescription W))
    unfolding send_private_request
    get_open_orders = send_private_request (codes "OpenOrders") (Answers.read_open_orders J) []

    unfoldable pub get_closed_orders : S → Run S (List (OrderDescription W))
    unfolding send_private_request
    get_closed_orders =
        send_private_request (codes "ClosedOrders") (Answers.read_closed_orders J) []

    unfoldable pub cancel_kraken_order : Bytes → S → Run S (Unit {0})
    unfolding send_private_request add_parameter
    cancel_kraken_order order_id =
        send_private_request (codes "CancelOrder") (Answers.read_cancel_order J)
          (add_parameter (codes "txid") order_id url_query_builder).query

    module _ ⦃d : Double W⦄ where
      unfoldable pub order_query : OrderRequest W → Bytes → Bytes
      unfolding add_parameter action_name get
      order_query r type_name =
          (add_parameter (codes "volume") (signing.double_to_string (get r volume_parameter)) (
            add_parameter (codes "price") (signing.double_to_string (get r asset_price)) (
              add_parameter (codes "ordertype") type_name
                (add_parameter (codes "type") (action_name r.action) (pair_query r.pair))))).query

      unfoldable pub add_kraken_order : OrderRequest W → S → Run S Bytes
      unfolding send_private_request order_type_name order_query
      add_kraken_order r s = and_then (read_in (order_type_name r.order_type) s) λ type_name s.
          send_private_request (codes "AddOrder") (Answers.read_add_order J)
            (order_query r type_name) s
