-- ===== src/Exchanges/Requests/Prices.antt =====
-- The names of results put back to pairs.
use marketblocks.Prelude.{
  Bytes, ◌≡◌, ◌⊎◌, inl, inr, none, some, List, [], ◌∷◌, foldl, bytes_equality, Map, lookup, emplace,
  lookup-emplace_any, arith, Option-cases,
}
use marketblocks.Trading.Pair.{TradablePair, pair_equality, pair_to_string}
use marketblocks.Exchanges.Requests.{pair_lookup, add_results, create_pair_result_map}

-- A pair found under a name has it.
abbrev HaveNames : Map Bytes TradablePair → Type 0
HaveNames pairs =
    (name : Bytes) (pair : TradablePair)
    → lookup name pairs ≡ some pair
    → pair_to_string pair ≡ name

foldl-HaveNames :
    (pairs : List TradablePair) (m : Map Bytes TradablePair)
    → HaveNames m
    → HaveNames (foldl (λ m pair. emplace (pair_to_string pair) pair m) m pairs)
foldl-HaveNames [] m h = h
foldl-HaveNames (p ∷ pairs) m h =
    foldl-HaveNames pairs (emplace (pair_to_string p) p m) λ name pair found. ground (
      arith,
      lookup-emplace_any (pair_to_string p) name p m,
      h name pair,
      bytes_equality.beq_iff (pair_to_string p) name,
    )

pair_lookup-HaveNames : (pairs : List TradablePair) → HaveNames (pair_lookup pairs)
unfolding pair_lookup lookup
pair_lookup-HaveNames pairs = foldl-HaveNames pairs [] (λ name pair found. absurd (ground arith))

module _ {T : Type 0} (pairs : Map Bytes TradablePair) (have : HaveNames pairs) where
  add_results-lookup :
      (named : List (Bytes × T)) (acc result : Map TradablePair T) (p : TradablePair) (v : T)
      → add_results pairs named acc ≡ some result
      → lookup p result ≡ some v
      → (lookup p acc ≡ some v)
        ⊎ ((lookup p acc ≡ none)
            × (lookup (pair_to_string p) pairs ≡ some p)
            × (lookup (pair_to_string p) named ≡ some v))
  unfolding add_results
  add_results-lookup [] acc result p v h found = inl (ground arith)
  add_results-lookup ((name, w) ∷ named) acc result p v h found =
      elim (Option-cases (lookup name pairs)) [
        | inl missing ↦
            let stuck : none ≡ some result = rw (add_results, missing) at h in absurd (ground arith)
        | inr (q, here) ↦
            elim (add_results-lookup named (emplace q w acc) result p v
              (rw (add_results, here) at h) found) [
                | inl early ↦ ground (
                  arith,
                  lookup-emplace_any q p w acc,
                  pair_equality.beq_iff q p,
                  have name q here,
                  bytes_equality.beq_iff name (pair_to_string p),
                )
                | inr (absent, known, later) ↦ ground (
                  arith,
                  lookup-emplace_any q p w acc,
                  pair_equality.beq_iff q p,
                  bytes_equality.beq_iff name (pair_to_string p),
                )
              ]
      ]

-- Where the results of names are put back to pairs, a pair that has one is a pair that its name stands for,
-- and has the result that is listed under this name.
pub create_pair_result_map-lookup :
    {T : Type 0} (pairs : List TradablePair) (named : Map Bytes T) (result : Map TradablePair T)
    (pair : TradablePair) (v : T)
    → create_pair_result_map pairs named ≡ some result
    → lookup pair result ≡ some v
    → (lookup (pair_to_string pair) (pair_lookup pairs) ≡ some pair)
      × (lookup (pair_to_string pair) named ≡ some v)
unfolding create_pair_result_map lookup
create_pair_result_map-lookup pairs named result pair v h found =
    elim (add_results-lookup (pair_lookup pairs) (pair_lookup-HaveNames pairs) named [] result pair
      v h found) [
        | inl early ↦ absurd (ground arith)
        | inr (absent, known, listed) ↦ (known, listed)
      ]
