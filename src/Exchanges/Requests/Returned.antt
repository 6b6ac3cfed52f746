-- ===== src/Exchanges/Requests/Returned.antt =====
-- What has happened where a request returns.
use marketblocks.Prelude.{
  pos, Bytes, true, ◌≡◌, ap, inl, inr, Option, none, some, ◌==◌, int_equality, arith, Bool-cases,
  if◌then◌else◌,
}
use marketblocks.Common.Run.{Run, returns, throws, undefined, and_then, failed}
use marketblocks.Common.Retry.{Result, success, failure}
use marketblocks.Networking.Http.{HttpRequest, HttpResponse, HttpService}
use marketblocks.Exchanges.Requests.{value_or_throw, send_http_request}

module _ {S T : Type 0} where
  value_or_throw-returns :
      (result : Option (Result T)) (s t : S) (v : T)
      → value_or_throw result s ≡ returns v t
      → (result ≡ some (success v)) × (s ≡ t)
  unfolding value_or_throw
  value_or_throw-returns none s t v h = absurd (ground arith)
  value_or_throw-returns (some (success w)) s t v h = (ground arith, ground arith)
  value_or_throw-returns (some (failure e)) s t v h = absurd (ground arith)

  answer-returns :
      (m : Run S HttpResponse) (reader : Bytes → Option (Result T)) (t : S) (v : T)
      → (and_then m λ (response : HttpResponse) s.
          if response.response_code == pos 200
          then value_or_throw (reader response.message) s
          else throws (failed response.message) s)
        ≡ returns v t
      → (response : HttpResponse) × (m ≡ returns response t)
        × ((response.response_code == pos 200) ≡ true)
        × (reader response.message ≡ some (success v))
  answer-returns (returns response u) reader t v h =
      elim (Bool-cases (response.response_code == pos 200)) [
        | inl ok ↦
            let (read, same) =
              value_or_throw-returns (reader response.message) u t v (rw ok at h) in
            (response, ap (returns response) same, ok, read)
        | inr bad ↦
            let thrown : throws (failed response.message) u ≡ returns v t = rw bad at h in
            ground arith
      ]
  answer-returns (throws e u) reader t v h = ground arith
  answer-returns undefined reader t v h = ground arith

  -- A request that returns has been answered with the code 200 and a text that reads as the value.
  pub send_http_request-returns :
      (service : HttpService S) (request : HttpRequest) (reader : Bytes → Option (Result T))
      (s t : S) (v : T)
      → send_http_request service request reader s ≡ returns v t
      → (response : HttpResponse) × (service request s ≡ returns response t)
        × ((response.response_code == pos 200) ≡ true)
        × (reader response.message ≡ some (success v))
  unfolding send_http_request
  send_http_request-returns service request reader s t v h =
      answer-returns (service request s) reader t v h
