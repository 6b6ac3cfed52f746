-- ===== src/Exchanges/Documents.antt =====
-- Small documents, which stand for what a JSON library makes of an answer: the tests run on them.
use marketblocks.Prelude.{
  ℕ, zero, suc, ◌+◌, ◌-◌, ◌*◌, ℤ, pos, Bytes, Bool, true, false, Option, none, some, List, [], ◌∷◌,
  length, foldl, ◌==◌, nat_equality, bytes_equality, if◌then◌else◌,
}
use marketblocks.Double.Fixed.{Fixed, fixed_double}
use marketblocks.Common.Text.{codes}
use marketblocks.Common.Json.{Read, value, raised, unspecified, ◌>>=◌, JsonLibrary, Numerals}

-- A document: a text, a number, or items with or without keys.
pub data Doc : Type 0 where
  text : Bytes → Doc
  number : ℤ → Doc
  nothing : Doc
  item : Option Bytes → Doc → Doc → Doc

abbrev pub member_of : Doc → Bytes → Read Doc
member_of (text t) name = raised (codes "not an object")
member_of (number i) name = raised (codes "not an object")
member_of nothing name = unspecified
member_of (item none v rest) name = raised (codes "not an object")
member_of (item (some k) v rest) name = if k == name then value v else member_of rest name

abbrev pub index_of : Doc → ℕ → Read Doc
index_of (text t) i = raised (codes "not an array")
index_of (number z) i = raised (codes "not an array")
index_of nothing i = unspecified
index_of (item k v rest) zero = value v
index_of (item k v rest) (suc i) = index_of rest i

abbrev pub items_of : Doc → List (Option Bytes × Doc)
items_of (item k v rest) = (k, v) ∷ items_of rest
items_of _ = []

abbrev pub has_of : Doc → Bytes → Bool
has_of (item (some k) v rest) name = if k == name then true else has_of rest name
has_of _ name = false

abbrev pub number_of : Doc → Read ℤ
number_of (number i) = value i
number_of _ = raised (codes "not a number")

abbrev pub text_of : Doc → Read Bytes
text_of (text t) = value t
text_of _ = raised (codes "not a text")

abbrev pub is_array_of : Doc → Bool
is_array_of (item none v rest) = true
is_array_of _ = false

abbrev pub texts_of : Doc → Read (List Bytes)
texts_of nothing = value []
texts_of (item none (text t) rest) = texts_of rest >>= (λ ts. value (t ∷ ts))
texts_of _ = raised (codes "not texts")

-- The library on one answer.
abbrev pub library : Doc → JsonLibrary Doc
library answer = record {
  parse = λ bytes. if bytes == [] then raised (codes "parse error") else value answer;
  member = member_of;
  index = index_of;
  has_member = has_of;
  size = λ json. length (items_of json);
  items = items_of;
  get_int = number_of;
  get_long = number_of;
  get_string = text_of;
  get_strings = texts_of;
  is_array = is_array_of;
}

-- Numerals of digits, on decimal fractions.
abbrev pub numerals : Numerals Doc Fixed
numerals = record {
  get_double = number_of;
  stod = λ bytes. value (pos (10_000 * foldl (λ n c. n * 10 + (c - 48)) 0 bytes));
  stoll = λ bytes. value (pos (foldl (λ n c. n * 10 + (c - 48)) 0 bytes));
  stoi = λ bytes. value (pos (foldl (λ n c. n * 10 + (c - 48)) 0 bytes));
  log10 = λ x. x;
  negate = λ x. x;
  to_int = λ x. value x;
  to_time_t = λ time format. value (pos 0);
  length_error = codes "vector::reserve";
}

abbrev pub array : List Doc → Doc
array [] = nothing
array (d ∷ ds) = item none d (array ds)

abbrev pub object : List (Bytes × Doc) → Doc
object [] = nothing
object ((k, v) ∷ ds) = item (some k) v (object ds)
