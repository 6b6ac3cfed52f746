-- ===== src/Common/Json.antt =====
-- common/json/: JSON documents. The library nlohmann::json, which parses and reads them, is not part of
-- the repository: it is an interface, as are the numerals of the standard library.
pub mod Loops
use marketblocks.Prelude.{
  ℕ, zero, suc, ℤ, pos, negsuc, Bytes, Bool, Option, none, some, List, [], ◌∷◌, ◌++◌, ltb, Equality,
  Map, emplace, if◌then◌else◌,
}
use marketblocks.Common.Run.{Run, returns, throws, undefined, failed}
use marketblocks.Common.Retry.{Result, failure}

-- What a read of a document does.
pub data Read (A : Type 0) : Type 0 where
  value : A → Read A
  -- an exception of the library, with what it says
  raised : Bytes → Read A
  -- a read that C++ or the library leaves undefined
  unspecified : Read A

infixl 45 ◌>>=◌
abbrev pub ◌>>=◌ : {A B : Type 0} → Read A → (A → Read B) → Read B
value a >>= f = f a
raised e >>= f = raised e
unspecified >>= f = unspecified

abbrev pub defined : {A : Type 0} → Option A → Read A
defined none = unspecified
defined (some a) = value a

-- The same read within a call that changes an object.
abbrev pub read_in : {S A : Type 0} → Read A → S → Run S A
read_in (value a) s = returns a s
read_in (raised e) s = throws (failed e) s
read_in unspecified s = undefined

-- `catch (const std::exception& e)`, which makes a failure of what is thrown; `none` is undefined.
unfoldable pub catching : {T : Type 0} → Read (Result T) → Option (Result T)
catching (value r) = some r
catching (raised e) = some (failure e)
catching unspecified = none

-- nlohmann::json: `J` is its document, and each operation may throw.
pub record JsonLibrary (J : Type 0) : Type 0 where
  pub parse : Bytes → Read J
  -- `operator[]` of a constant document; of a name or an index that is not there it is undefined
  pub member : J → Bytes → Read J
  pub index : J → ℕ → Read J
  pub has_member : J → Bytes → Bool
  pub size : J → ℕ
  -- What an iterator visits, in its order. A key is `none` where the document is no object:
  -- `json_iterator::key` then refers to a text that is gone.
  pub items : J → List (Option Bytes × J)
  -- `template get<T>()`, for `int`, for the 64-bit integers, and for the other types
  pub get_int : J → Read ℤ
  pub get_long : J → Read ℤ
  pub get_string : J → Read Bytes
  pub get_strings : J → Read (List Bytes)
  pub is_array : J → Bool

-- Doubles of documents, the standard library's numerals and times, and what its exceptions say.
pub record Numerals (J W : Type 0) : Type 0 where
  -- `template get<double>()`
  pub get_double : J → Read W
  pub stod : Bytes → Read W
  pub stoll : Bytes → Read ℤ
  pub stoi : Bytes → Read ℤ
  pub log10 : W → W
  pub negate : W → W
  -- `static_cast<int>`, which is undefined out of range
  pub to_int : W → Read ℤ
  -- `to_time_t` of a text in a format
  pub to_time_t : Bytes → Bytes → Read ℤ
  pub length_error : Bytes

module _ {J : Type 0} ⦃l : JsonLibrary J⦄ where
  -- `get<T>` of a member, and of an element
  abbrev pub get_int_of : J → Bytes → Read ℤ
  get_int_of json name = l.member json name >>= l.get_int

  abbrev pub get_long_of : J → Bytes → Read ℤ
  get_long_of json name = l.member json name >>= l.get_long

  abbrev pub get_string_of : J → Bytes → Read Bytes
  get_string_of json name = l.member json name >>= l.get_string

  abbrev pub get_strings_of : J → Bytes → Read (List Bytes)
  get_strings_of json name = l.member json name >>= l.get_strings

  abbrev pub get_long_at : J → ℕ → Read ℤ
  get_long_at json i = l.index json i >>= l.get_long

  abbrev pub get_string_at : J → ℕ → Read Bytes
  get_string_at json i = l.index json i >>= l.get_string

  -- `begin().value()`, where a document without items has no first one
  abbrev pub first_item : J → Read J
  first_item json = elim (l.items json) [ [] ↦ unspecified | item ∷ items ↦ value item.1 ]

  module _ {W : Type 0} ⦃n : Numerals J W⦄ where
    abbrev pub get_double_of : J → Bytes → Read W
    get_double_of json name = l.member json name >>= n.get_double

    abbrev pub get_double_at : J → ℕ → Read W
    get_double_at json i = l.index json i >>= n.get_double

    -- `std::stod` of such a text
    abbrev pub stod_of : J → Bytes → Read W
    stod_of json name = get_string_of json name >>= n.stod

    abbrev pub stod_at : J → ℕ → Read W
    stod_at json i = get_string_at json i >>= n.stod

-- The numbers below a bound: what a counter of a loop runs through.
unfoldable pub range : ℕ → List ℕ
range zero = []
range (suc n) = range n ++ n ∷ []

-- The rounds up to `std::min<int>` of a size and a number of items wanted; below zero, `reserve` throws
-- a length error. The size is below 2^31.
unfoldable pub rounds_of : Bytes → ℕ → ℤ → Read (List ℕ)
unfolding range
rounds_of length_error size (negsuc n) = raised length_error
rounds_of length_error size (pos n) = value (range (if ltb n size then n else size))

-- A loop over what a container holds: each round changes the locals, or ends the loop by an exception.
unfoldable pub for_each : {X S : Type 0} → (X → S → Read S) → List X → S → Read S
for_each round [] s = value s
for_each round (x ∷ xs) s = round x s >>= for_each round xs

-- A loop that appends what it reads of each item.
unfoldable pub read_each : {X A : Type 0} → (X → Read A) → List X → Read (List A)
read_each read [] = value []
read_each read (x ∷ xs) = do a ← read x; rest ← read_each read xs; value (a ∷ rest)

-- A loop that puts what it reads of each item in front.
unfoldable pub prepend_each : {X A : Type 0} → (X → Read A) → List X → Read (List A)
unfolding for_each
prepend_each read xs = for_each (λ x done. read x >>= (λ a. value (a ∷ done))) xs []

-- A loop that adds an entry to a map for each item.
module _ {K : Type 0} ⦃e : Equality K⦄ where
  unfoldable pub emplace_each : {X V : Type 0} → (X → Read (K × V)) → List X → Read (Map K V)
  unfolding for_each emplace
  emplace_each read xs = for_each (λ x m. read x >>= (λ e. value (emplace e.0 e.1 m))) xs []
