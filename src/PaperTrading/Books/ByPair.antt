-- ===== src/PaperTrading/Books/ByPair.antt =====
-- The lists of ids by pair.
use mathlib.Core.Path.{subst}
use marketblocks.Prelude.{
  Bytes, true, List, [], ◌∷◌, ◌++◌, ◌≡◌, inl, inr, sym, arith, ◌==◌, bytes_equality, Map, lookup_or,
  insert_or_assign, elem, beq_refl, elem-append, lookup_or-insert_or_assign, Bool-cases,
}
use marketblocks.Trading.Pair.{TradablePair, pair_equality}

-- The list of a pair with one more id.
abbrev pub with_id :
    TradablePair → Bytes → Map TradablePair (List Bytes) → Map TradablePair (List Bytes)
with_id p id books = insert_or_assign p (lookup_or p [] books ++ (id ∷ [])) books

pub elem-with_id_self :
    (p : TradablePair) (id : Bytes) (books : Map TradablePair (List Bytes))
    → elem id (lookup_or p [] (with_id p id books)) ≡ true
elem-with_id_self p id books =
    rw (lookup_or-insert_or_assign p p [] (lookup_or p [] books ++ (id ∷ [])) books, beq_refl p)
      (ground (arith, elem-append id (lookup_or p [] books) (id ∷ []), beq_refl id))

pub elem-with_id :
    (p q : TradablePair) (id j : Bytes) (books : Map TradablePair (List Bytes))
    → elem j (lookup_or q [] books) ≡ true
    → elem j (lookup_or q [] (with_id p id books)) ≡ true
elem-with_id p q id j books h =
    let ids = lookup_or p [] books in
    let kept = lookup_or-insert_or_assign p q [] (ids ++ (id ∷ [])) books in
    elim (Bool-cases (p == q)) [
      | inl same ↦
          let here : elem j ids ≡ true =
            subst (λ x. elem j (lookup_or x [] books) ≡ true)
              (sym ((pair_equality.beq_iff p q).0 same)) h in
          rw (kept, same) (ground (arith, elem-append j ids (id ∷ [])))
      | inr differ ↦ rw (kept, differ) h
    ]
