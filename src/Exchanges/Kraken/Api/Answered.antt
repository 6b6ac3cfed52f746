-- ===== src/Exchanges/Kraken/Api/Answered.antt =====
-- What the requests to Kraken return, and the names that they send.
use marketblocks.Prelude.{
  ℤ, pos, List, ◌++◌, ◌⊎◌, int_equality, ◌∷◌, Bytes, ◌≡◌, refl, sym, ◌∙◌, ap, inl, inr, some, [],
  length, All, arith, ◌==◌, bytes_equality, Bool-cases,
}
use mathlib.Core.Path.{subst}
use mathlib.Core.List.{append_assoc}
use marketblocks.Common.Text.{codes}
use marketblocks.Common.Strings.{contains, starts_with, c_string, int_to_string}
use marketblocks.Common.Run.{returns}
use marketblocks.Common.Retry.{success, failure}
use marketblocks.Common.Json.{Read, value, ◌>>=◌, JsonLibrary, Numerals, first_item, get_strings_of}
use marketblocks.Common.Json.Loops.{value_inj, success_inj, bind-value, catching-success}
use marketblocks.Networking.Http.{HttpService, HttpRequest, HttpResponse, get_verb, new_request}
use marketblocks.Networking.Url.{add_parameter, build_url, append_path, append_query}
use marketblocks.Exchanges.Requests.{send_http_request}
use marketblocks.Trading.Constants.{
  OrderType, market, limit, stop_loss, trailing_stop_loss, take_profit,
}
use marketblocks.Trading.Pair.{TradablePair, pair_to_string}
use marketblocks.Trading.Market.{ask, bid, OrderBookEntry, OrderBookState}
use marketblocks.Exchanges.Requests.Returned.{send_http_request-returns}
use marketblocks.Exchanges.Kraken.Results.{
  to_order_type, get_error, read_document, read_result, first_message,
}
use marketblocks.Exchanges.Kraken.Results.Answers.{read_order_book}
use marketblocks.Exchanges.Kraken.Results.Levels.{read_book-levels}
use marketblocks.Exchanges.Kraken.Api.{
  Signing, KrakenApi, order_type_name, send_public_request, get_order_book, build_kraken_path,
}

-- The name that an order type is sent by is read back as this type.
pub to_order_type-order_type_name :
    (type : OrderType) (name : Bytes)
    → order_type_name type ≡ value name
    → to_order_type name ≡ value type
unfolding order_type_name to_order_type contains starts_with c_string
to_order_type-order_type_name limit name h =
    subst (λ n. to_order_type n ≡ value limit) (value_inj h) refl
to_order_type-order_type_name market name h =
    subst (λ n. to_order_type n ≡ value market) (value_inj h) refl
to_order_type-order_type_name stop_loss name h =
    subst (λ n. to_order_type n ≡ value stop_loss) (value_inj h) refl
to_order_type-order_type_name take_profit name h =
    subst (λ n. to_order_type n ≡ value take_profit) (value_inj h) refl
to_order_type-order_type_name trailing_stop_loss name h = ground arith

module _ {J : Type 0} ⦃l : JsonLibrary J⦄ where
  -- Where an answer reads as a value, Kraken has told of no error in it.
  read_result-success :
      {T : Type 0} (reader : J → Read T) (text : Bytes) (v : T)
      → read_result reader text ≡ some (success v)
      → (json result : J) × (errors : List Bytes) × (l.parse text ≡ value json)
        × (get_strings_of json (codes "error") ≡ value errors)
        × (first_message errors ≡ [])
        × (l.member json (codes "result") ≡ value result)
        × (reader result ≡ value v)
  unfolding read_result read_document get_error
  read_result-success reader text v h =
      let (json, p, k) =
        bind-value (l.parse text) (read_document reader) (success v)
          (catching-success (l.parse text >>= read_document reader) v h) in
      let (error, q, m) = bind-value (get_error json) _ (success v) k in
      let (errors, told, first) = bind-value (get_strings_of json (codes "error")) _ error q in
      elim (Bool-cases (error == [])) [
        | inl fine ↦
            let (w, r, o) =
              bind-value (l.member json (codes "result") >>= reader) _ (success v) (rw fine at m) in
            let (result, t, u) = bind-value (l.member json (codes "result")) reader w r in
            (
              json,
              result,
              errors,
              p,
              told,
              value_inj first ∙ (bytes_equality.beq_iff error []).0 fine,
              t,
              u ∙ ap value (success_inj (value_inj o)),
            )
        | inr wrong ↦
            let failed : value (failure error) ≡ value (success v) = rw wrong at m in
            absurd (ground arith)
      ]

-- The request for an order book, as Kraken documents it.
abbrev pub depth_request : TradablePair → ℤ → HttpRequest
depth_request pair depth = record {
  verb = get_verb;
  url =
      codes "https://api.kraken.com/0/public/Depth?pair="
      ++ ((pair.asset ++ pair.price_unit) ++ (codes "&count=" ++ int_to_string depth));
  content = [];
  headers = [];
}

-- What has been sent and answered for an order book: the answer has the code 200, tells of no error, and
-- its first result is a book with an entry of each side for each of its asks.
pub record IsAnsweredBook (J : Type 0) {W S : Type 0} ⦃l : JsonLibrary J⦄ (service : HttpService S)
    (pair : TradablePair) (depth : ℤ) (s t : S) (book : OrderBookState W) : Type 0 where
  pub response : HttpResponse
  pub json : J
  pub errors : List Bytes
  pub results : J
  pub document : J
  pub asks : J
  pub sent : service (depth_request pair depth) s ≡ returns response t
  pub accepted : response.response_code ≡ pos 200
  pub parsed : l.parse response.message ≡ value json
  pub told : get_strings_of json (codes "error") ≡ value errors
  pub no_error : (errors ≡ []) ⊎ ((later : List Bytes) × (errors ≡ [] ∷ later))
  pub resulted : l.member json (codes "result") ≡ value results
  pub first_result : first_item results ≡ value document
  pub asks_there : l.member document (codes "asks") ≡ value asks
  pub asks_read : length book.asks ≡ l.size asks
  pub bids_read : length book.bids ≡ l.size asks
  pub asks_marked : All (λ (e : OrderBookEntry W). e.side ≡ ask) book.asks
  pub bids_marked : All (λ (e : OrderBookEntry W). e.side ≡ bid) book.bids

first_message-empty :
    (errors : List Bytes)
    → first_message errors ≡ []
    → (errors ≡ []) ⊎ ((later : List Bytes) × (errors ≡ [] ∷ later))
unfolding first_message
first_message-empty [] h = inl refl
first_message-empty (e ∷ es) h = inr (es, ap (λ e. e ∷ es) h)

module _ {W S : Type 0} (signing : Signing W S) (service : HttpService S) (api : KrakenApi) where
  depth_request-sent :
      (J : Type 0) ⦃l : JsonLibrary J⦄ ⦃n : Numerals J W⦄ (pair : TradablePair) (depth : ℤ) (s : S)
      → get_order_book signing service api J pair depth s
        ≡ send_http_request service (depth_request pair depth) (read_order_book J) s
  unfolding get_order_book send_public_request add_parameter build_url append_path append_query
      build_kraken_path new_request pair_to_string
  depth_request-sent J pair depth s =
      let names = pair.asset ++ pair.price_unit in
      let count = 61 ∷ int_to_string depth in
      ap
        (λ rest.
          send_http_request service
            (record (depth_request pair depth) {
              url = codes "https://api.kraken.com/0/public/Depth?pair=" ++ rest;
            })
            (read_order_book J) s)
        (append_assoc (names ++ codes "&") (codes "count") count
          ∙ append_assoc names (codes "&") (codes "count" ++ count))

module _ (J : Type 0) {W S : Type 0} ⦃l : JsonLibrary J⦄ ⦃n : Numerals J W⦄ (signing : Signing W S)
    (service : HttpService S) (api : KrakenApi) where
  -- Where `get_order_book` returns a book, it has sent one request, to Kraken's documented address for the
  -- pair and the depth, which was answered with the code 200 and a document that tells of no error. The
  -- book has as many asks and as many bids as the first result of the document has asks, and every entry is
  -- marked with its own side.
  pub get_order_book-IsAnsweredBook :
      (pair : TradablePair) (depth : ℤ) (s t : S) (book : OrderBookState W)
      → get_order_book signing service api J pair depth s ≡ returns book t
      → IsAnsweredBook J service pair depth s t book
  unfolding read_order_book
  get_order_book-IsAnsweredBook pair depth s t book h =
      let (response, sent, ok, read) =
        send_http_request-returns service _ _ s t book
          (sym (depth_request-sent signing service api J pair depth s) ∙ h) in
      let (json, results, errors, parsed, told, none_told, there, k) =
        read_result-success {J = J} _ response.message book read in
      let (document, first, m) = bind-value (first_item results) _ book k in
      let (asks, here, (marked, count, marked', count')) = read_book-levels document book m in
      record {
        response = response;
        json = json;
        errors = errors;
        results = results;
        document = document;
        asks = asks;
        sent = sent;
        accepted = (int_equality.beq_iff response.response_code (pos 200)).0 ok;
        parsed = parsed;
        told = told;
        no_error = first_message-empty errors none_told;
        resulted = there;
        first_result = first;
        asks_there = here;
        asks_read = count;
        bids_read = count';
        asks_marked = marked;
        bids_marked = marked';
      }
