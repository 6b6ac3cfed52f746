-- ===== src/Networking/Http.antt =====
-- networking/http/: requests and responses. The service that sends them, which wraps libcurl, is a
-- function on the state of the network.
use marketblocks.Prelude.{ℤ, Bytes, List, [], ◌∷◌, ◌++◌}
use marketblocks.Common.Text.{codes}
use marketblocks.Common.Run.{Run}

pub data HttpVerb : Type 0 where
  get_verb post_verb delete_verb : HttpVerb

unfoldable pub verb_to_string : HttpVerb → Bytes
verb_to_string get_verb = codes "GET"
verb_to_string post_verb = codes "POST"
verb_to_string delete_verb = codes "DELETE"

pub record HttpHeader : Type 0 where
  pub key : Bytes
  pub value : Bytes

pub record HttpRequest : Type 0 where
  pub verb : HttpVerb
  pub url : Bytes
  pub content : Bytes
  pub headers : List HttpHeader

unfoldable pub new_request : HttpVerb → Bytes → HttpRequest
new_request verb url = record { verb = verb; url = url; content = []; headers = [] }

unfoldable pub add_header : Bytes → Bytes → HttpRequest → HttpRequest
add_header key value r = record r {
  headers = r.headers ++ record { key = key; value = value } ∷ [];
}

unfoldable pub set_content : Bytes → HttpRequest → HttpRequest
set_content content r = record r { content = content }

pub record HttpResponse : Type 0 where
  pub response_code : ℤ
  pub message : Bytes

-- `http_service::send`
abbrev pub HttpService : Type 0 → Type 0
HttpService S = HttpRequest → S → Run S HttpResponse
