-- ===== src/Prelude/Maps.antt =====
-- `std::unordered_map` and `std::map` as association lists: what the code uses of them.
-- The order of the entries is that of insertion; the order in which C++ visits an unordered map is
-- not specified, and no theorem depends on it.
use mathlib.Core.Path.{◌≡◌, refl}
use Prim.Native.Nat.{ℕ, zero, suc}
use mathlib.Core.Logic.{◌↔◌, ◌≢◌}
use mathlib.Core.Bool.{Bool, true, false, ◌||◌}
use mathlib.Core.Option.{Option, none, some}
use mathlib.Core.List.{List, [], ◌∷◌, ◌++◌}
use native.Mathlib.Omega.{arith}
use marketblocks.Prelude.Tests.{if◌then◌else◌}
use marketblocks.Prelude.Lists.{get_elem?, erase_at}
use marketblocks.Prelude.Eq.{Equality, ◌==◌}

abbrev pub Map {ℓ κ} : Type ℓ → Type κ → Type (ℓ ⊔ κ)
Map K V = List (K × V)

module _ {ℓ κ} {K : Type ℓ} {V : Type κ} ⦃e : Equality K⦄ where
  unfoldable pub lookup : K → Map K V → Option V
  lookup k [] = none
  lookup k ((j, v) ∷ m) = if j == k then some v else lookup k m

  -- `find(k) != end()`
  unfoldable pub contains_key : K → Map K V → Bool
  unfolding lookup
  contains_key k m = elim (lookup k m) [ none ↦ false | some v ↦ true ]

  -- `insert_or_assign`, and an assignment through `operator[]`
  unfoldable pub insert_or_assign : K → V → Map K V → Map K V
  insert_or_assign k v [] = (k, v) ∷ []
  insert_or_assign k v ((j, w) ∷ m) = if j == k then (j, v) ∷ m else (j, w) ∷ insert_or_assign k v m

  -- `emplace`: an entry that is there stays.
  unfoldable pub emplace : K → V → Map K V → Map K V
  emplace k v [] = (k, v) ∷ []
  emplace k v ((j, w) ∷ m) = if j == k then (j, w) ∷ m else (j, w) ∷ emplace k v m

  unfoldable pub erase : K → Map K V → Map K V
  erase k [] = []
  erase k ((j, v) ∷ m) = if j == k then erase k m else (j, v) ∷ erase k m

  -- `operator[]` as a value: the default where the key is missing.
  unfoldable pub lookup_or : K → V → Map K V → V
  unfolding lookup
  lookup_or k d m = elim (lookup k m) [ none ↦ d | some v ↦ v ]

  pub lookup-insert_or_assign :
      (k j : K) (v : V) (m : Map K V)
      → lookup j (insert_or_assign k v m) ≡ (if k == j then some v else lookup j m)
  unfolding lookup insert_or_assign
  lookup-insert_or_assign k j v [] = refl
  lookup-insert_or_assign k j v ((i, w) ∷ m) =
      ground (arith, e.beq_iff k j, e.beq_iff i k, e.beq_iff i j, lookup-insert_or_assign k j v m)

  pub lookup-erase :
      (k j : K) (m : Map K V) → lookup j (erase k m) ≡ (if k == j then none else lookup j m)
  unfolding lookup erase
  lookup-erase k j [] = ground arith
  lookup-erase k j ((i, w) ∷ m) =
      ground (arith, e.beq_iff k j, e.beq_iff i k, e.beq_iff i j, lookup-erase k j m)

  pub lookup-emplace :
      (k j : K) (v : V) (m : Map K V)
      → lookup k m ≡ none
      → lookup j (emplace k v m) ≡ (if k == j then some v else lookup j m)
  unfolding lookup emplace
  lookup-emplace k j v [] h = refl
  lookup-emplace k j v ((i, w) ∷ m) h =
      ground (arith, e.beq_iff k j, e.beq_iff i k, e.beq_iff i j, lookup-emplace k j v m)

  pub lookup-emplace_any :
      (k j : K) (v : V) (m : Map K V)
      → lookup j (emplace k v m)
        ≡ elim (lookup j m) [ none ↦ if k == j then some v else none | some w ↦ some w ]
  unfolding lookup emplace
  lookup-emplace_any k j v [] = refl
  lookup-emplace_any k j v ((i, w) ∷ m) =
      ground (arith, e.beq_iff k j, e.beq_iff i k, e.beq_iff i j, lookup-emplace_any k j v m)

  pub lookup_or-insert_or_assign :
      (k j : K) (d v : V) (m : Map K V)
      → lookup_or j d (insert_or_assign k v m) ≡ (if k == j then v else lookup_or j d m)
  unfolding lookup_or
  lookup_or-insert_or_assign k j d v m = ground (arith, lookup-insert_or_assign k j v m)

  pub lookup_or-emplace_default :
      (k j : K) (d : V) (m : Map K V) → lookup_or j d (emplace k d m) ≡ lookup_or j d m
  unfolding lookup_or lookup emplace
  lookup_or-emplace_default k j d [] = ground arith
  lookup_or-emplace_default k j d ((i, w) ∷ m) =
      ground (arith, e.beq_iff k j, e.beq_iff i k, e.beq_iff i j, lookup_or-emplace_default k j d m)

  pub lookup-emplace_other :
      (k j : K) (v : V) (m : Map K V) → (k == j) ≡ false → lookup j (emplace k v m) ≡ lookup j m
  unfolding lookup emplace
  lookup-emplace_other k j v [] h = ground arith
  lookup-emplace_other k j v ((i, w) ∷ m) h =
      ground (arith, e.beq_iff k j, e.beq_iff i k, e.beq_iff i j, lookup-emplace_other k j v m)

  pub lookup-insert_other :
      (k j : K) (v : V) (m : Map K V)
      → (k == j) ≡ false
      → lookup j (insert_or_assign k v m) ≡ lookup j m
  lookup-insert_other k j v m h = rw (lookup-insert_or_assign k j v m, h)

  pub lookup-erase_other :
      (k j : K) (m : Map K V) → (k == j) ≡ false → lookup j (erase k m) ≡ lookup j m
  lookup-erase_other k j m h = rw (lookup-erase k j m, h)

  pub contains_key_iff : (k : K) (m : Map K V) → (contains_key k m ≡ false) ↔ (lookup k m ≡ none)
  unfolding contains_key
  contains_key_iff k m = ground arith

  pub contains_key-some :
      (k : K) (v : V) (m : Map K V) → lookup k m ≡ some v → contains_key k m ≡ true
  unfolding contains_key
  contains_key-some k v m h = ground arith

module _ {ℓ} {K : Type ℓ} ⦃e : Equality K⦄ where
  pub beq-ne : (a b : K) → a ≢ b → (a == b) ≡ false
  beq-ne a b h = ground (arith, e.beq_iff a b)

  abbrev pub elem : K → List K → Bool
  elem k [] = false
  elem k (x ∷ xs) = x == k || elem k xs

  -- No key stands in the list twice.
  abbrev pub Distinct : List K → Type 0
  Distinct [] = Unit
  Distinct (x ∷ xs) = (elem x xs ≡ false) × Distinct xs

  pub elem-append : (k : K) (xs ys : List K) → elem k (xs ++ ys) ≡ (elem k xs || elem k ys)
  elem-append k [] ys = refl
  elem-append k (x ∷ xs) ys = ground (arith, elem-append k xs ys)

  pub elem-erase_at :
      (j k : K) (i : ℕ) (xs : List K)
      → get_elem? xs i ≡ some k
      → (k == j) ≡ false
      → elem j xs ≡ true
      → elem j (erase_at xs i) ≡ true
  elem-erase_at j k i [] h n m = cc
  elem-erase_at j k zero (x ∷ xs) h n m = ground arith
  elem-erase_at j k (suc i) (x ∷ xs) h n m = ground (arith, elem-erase_at j k i xs h n)

  pub Distinct-append :
      (xs : List K) (k : K) → elem k xs ≡ false → Distinct xs → Distinct (xs ++ k ∷ [])
  Distinct-append [] k h u = ground arith
  Distinct-append (x ∷ xs) k h (u, us) = (
    ground (arith, elem-append x xs (k ∷ []), e.beq_iff x k, e.beq_iff k x),
    Distinct-append xs k (ground arith) us,
  )
