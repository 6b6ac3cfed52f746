-- ===== src/Exchanges/Coinbase/Results/Levels.antt =====
-- The order book that is read of an answer of Coinbase: how many entries it has, and their sides.
use marketblocks.Prelude.{
  ℕ, zero, suc, ◌≡◌, sym, ◌∙◌, ap, List, [], ◌∷◌, ◌++◌, length, All, All-append, length-append,
  arith, ltb, inl, inr, Bool-cases,
}
use Prim.Native.Nat.{min}
use mathlib.Core.Path.{subst}
use marketblocks.Common.Json.{value, ◌>>=◌, JsonLibrary, Numerals, stod_at, range, for_each}
use marketblocks.Common.Json.Loops.{value_inj, bind-value, for_each-range}
use marketblocks.Trading.Market.{OrderBookSide, ask, bid, OrderBookEntry}
use marketblocks.Exchanges.Coinbase.Results.{
  read_order_book_entry, read_entry_at, read_level, read_levels,
}

module _ {J W : Type 0} ⦃l : JsonLibrary J⦄ ⦃n : Numerals J W⦄ where
  -- What a side has been read so far: the first entries, all marked with one side.
  abbrev IsRead : OrderBookSide → J → ℕ → List (OrderBookEntry W) → Type 0
  IsRead side elements i entries =
      All (λ (e : OrderBookEntry W). e.side ≡ side) entries
      × (length entries ≡ min i (l.size elements))

  read_order_book_entry-side :
      (side : OrderBookSide) (element : J) (e : OrderBookEntry W)
      → read_order_book_entry side element ≡ value e
      → e.side ≡ side
  unfolding read_order_book_entry
  read_order_book_entry-side side element e h =
      let (price, p, k) =
        bind-value (stod_at element 0)
          (λ price.
            stod_at element 1
            >>= (λ volume. value record { price = price; volume = volume; side = side }))
          e h in
      let (volume, q, same) =
        bind-value (stod_at element 1)
          (λ volume. value record { price = price; volume = volume; side = side }) e k in
      sym (ap (λ (e : OrderBookEntry W). e.side) (value_inj same))

  read_entry_at-IsRead :
      (side : OrderBookSide) (elements : J) (i : ℕ) (entries next : List (OrderBookEntry W))
      → read_entry_at side elements i entries ≡ value next
      → IsRead side elements i entries
      → IsRead side elements (suc i) next
  unfolding read_entry_at
  read_entry_at-IsRead side elements i entries next h (sides, count) =
      elim (Bool-cases (ltb i (l.size elements))) [
        | inl p ↦
            let (e, q, k) =
              bind-value (l.index elements i >>= read_order_book_entry side)
                (λ e. value (entries ++ e ∷ [])) next (rw p at h) in
            let (element, r, m) =
              bind-value (l.index elements i) (read_order_book_entry side) e q in
            let side_of = read_order_book_entry-side side element e m in
            subst (IsRead side elements (suc i)) (value_inj k) (
              All-append (λ (e : OrderBookEntry W). e.side ≡ side) entries (e ∷ []) sides
                  (side_of, _),
              ground (arith, length-append entries (e ∷ [])),
            )
        | inr p ↦ subst (IsRead side elements (suc i)) (value_inj (rw p at h)) (sides, ground arith)
      ]

  read_level-IsRead :
      (bids asks : J) (i : ℕ) (before next : List (OrderBookEntry W) × List (OrderBookEntry W))
      → read_level bids asks i before ≡ value next
      → IsRead ask bids i before.0
      → IsRead bid asks i before.1
      → IsRead ask bids (suc i) next.0 × IsRead bid asks (suc i) next.1
  unfolding read_level
  read_level-IsRead bids asks i (b, a) next h p q =
      let (bs, f, k) =
        bind-value (read_entry_at ask bids i b)
          (λ bs. read_entry_at bid asks i a >>= (λ as'. value (bs, as'))) next h in
      let (as', g, same) =
        bind-value (read_entry_at bid asks i a) (λ as'. value (bs, as')) next k in
      subst
        (λ (next : List (OrderBookEntry W) × List (OrderBookEntry W)).
          IsRead ask bids (suc i) next.0 × IsRead bid asks (suc i) next.1)
        (value_inj same)
        (read_entry_at-IsRead ask bids i b bs f p, read_entry_at-IsRead bid asks i a as' g q)

  -- Where the levels of a book are read to a depth, each side has as many entries as the depth and the
  -- document allow, every bid is marked as an ask, and every ask as a bid.
  pub read_levels-sides :
      (bids asks : J) (depth : ℕ) (entries : List (OrderBookEntry W) × List (OrderBookEntry W))
      → read_levels bids asks depth ≡ value entries
      → (All (λ (e : OrderBookEntry W). e.side ≡ ask) entries.0
          × (length entries.0 ≡ min depth (l.size bids)))
        × (All (λ (e : OrderBookEntry W). e.side ≡ bid) entries.1
            × (length entries.1 ≡ min depth (l.size asks)))
  unfolding read_levels for_each range
  read_levels-sides bids asks zero entries h =
      subst
        (λ (next : List (OrderBookEntry W) × List (OrderBookEntry W)).
          IsRead ask bids 0 next.0 × IsRead bid asks 0 next.1)
        (value_inj h) ((_, omega arith), (_, omega arith))
  read_levels-sides bids asks (suc depth) entries h =
      let (before, f, k) =
        bind-value (read_levels bids asks depth) (read_level bids asks depth) entries
          (sym (for_each-range (read_level bids asks) depth ([], [])) ∙ h) in
      let (p, q) = read_levels-sides bids asks depth before f in
      read_level-IsRead bids asks depth before entries k p q
