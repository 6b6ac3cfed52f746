-- ===== src/Networking/Url.antt =====
-- networking/url.h and .cpp: addresses and their queries. The builder, a class that changes and returns
-- itself, is the query that it has built; it has started once a parameter has been added.
use marketblocks.Prelude.{
  ℕ, Bytes, Bool, true, false, ◌&&◌, not, [], ◌∷◌, ◌++◌, ◌==◌, nat_equality, bytes_equality,
  if◌then◌else◌,
}

pub record UrlQueryBuilder : Type 0 where
  pub query : Bytes
  pub started : Bool

abbrev pub url_query_builder : UrlQueryBuilder
url_query_builder = record { query = []; started = false }

unfoldable pub add_parameter : Bytes → Bytes → UrlQueryBuilder → UrlQueryBuilder
add_parameter key value q = record {
  query = (if q.started then q.query ++ 38 ∷ [] else q.query) ++ key ++ 61 ∷ value;
  started = true;
}

unfoldable pub append_query : Bytes → Bytes → Bytes
append_query url [] = url
append_query url (c ∷ query) = url ++ 63 ∷ c ∷ query

-- Whether the last byte is the one given.
ends_with_byte : ℕ → Bytes → Bool
ends_with_byte b [] = false
ends_with_byte b (c ∷ []) = c == b
ends_with_byte b (c ∷ cs) = ends_with_byte b cs

-- The address that the path is appended to is not empty.
unfoldable pub append_path : Bytes → Bytes → Bytes
unfolding ends_with_byte
append_path url [] = url
append_path url (c ∷ path) =
    (if not (ends_with_byte 47 url) && not (c == 47) then url ++ 47 ∷ [] else url) ++ c ∷ path

unfoldable pub build_url : Bytes → Bytes → Bytes → Bytes
unfolding append_path append_query
build_url base path query = append_query (append_path base path) query
