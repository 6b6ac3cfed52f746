-- ===== src/Exchanges/Requests.antt =====
-- exchanges/exchange_common.h: a request with the reading of its answer, and names put back to pairs.
pub mod Prices
pub mod Returned
use marketblocks.Prelude.{
  ℤ, pos, Bytes, Option, none, some, List, [], ◌∷◌, map, foldl, ◌==◌, int_equality, bytes_equality,
  Map, lookup, emplace, if◌then◌else◌,
}
use marketblocks.Common.Run.{Run, returns, throws, undefined, and_then, failed, out_of_range}
use marketblocks.Common.Retry.{Result, success, failure}
use marketblocks.Trading.Pair.{TradablePair, pair_equality, pair_to_string}
use marketblocks.Networking.Http.{HttpRequest, HttpResponse, HttpService}

module _ {S T : Type 0} where
  -- The value of a result, or an `mb_exception` of its error; `none` is a reading that is undefined.
  unfoldable pub value_or_throw : Option (Result T) → S → Run S T
  value_or_throw none s = undefined
  value_or_throw (some (success v)) s = returns v s
  value_or_throw (some (failure e)) s = throws (failed e) s

  unfoldable pub send_http_request :
      HttpService S → HttpRequest → (Bytes → Option (Result T)) → S → Run S T
  unfolding value_or_throw
  send_http_request service request reader s = and_then (service request s) λ response s.
      if response.response_code == pos 200
      then value_or_throw (reader response.message) s
      else throws (failed response.message) s

-- `to_unordered_map` of the pairs by their names: of pairs with one name the first stays.
unfoldable pub pair_lookup : List TradablePair → Map Bytes TradablePair
unfolding emplace pair_to_string
pair_lookup = foldl (λ m pair. emplace (pair_to_string pair) pair m) []

module _ {T : Type 0} where
  -- The results from one on; `none` is the exception of `at`.
  unfoldable pub add_results :
      Map Bytes TradablePair → List (Bytes × T) → Map TradablePair T → Option (Map TradablePair T)
  unfolding lookup emplace
  add_results pairs [] result = some result
  add_results pairs ((name, v) ∷ named) result = elim (lookup name pairs) [
    | none ↦ none
    | some pair ↦ add_results pairs named (emplace pair v result)
  ]

  unfoldable pub create_pair_result_map :
      List TradablePair → Map Bytes T → Option (Map TradablePair T)
  unfolding pair_lookup add_results
  create_pair_result_map pairs named = add_results (pair_lookup pairs) named []
