-- ===== src/Websockets/BookCache/Ordered.antt =====
-- The two sides of a cached book stay in order.
use marketblocks.Prelude.{
  ℕ, ℤ, zero, suc, Bool, true, ◌&&◌, not, List, [], ◌∷◌, foldl, ◌≡◌, arith, All, All-map, inl, inr,
  Bool-cases, length, take, length-take, ◌≤◌, ◌⊎◌, ltb, ◌==◌, nat_equality, if◌then◌else◌,
}
use marketblocks.Double.{Double, zero_double}
use marketblocks.Trading.Market.{OrderBookEntry, OrderBookState, OrderBookSide, ask, bid}
use marketblocks.Websockets.BookCache.{
  OrderBookCache, set_erase, set_insert, set_of, entry_less_than, entry_greater_than, update_side,
  update_by_side, update_cache, from_snapshot, snapshot,
}

abbrev pub IsTransitive : {E : Type 0} → (E → E → Bool) → Type 0
IsTransitive {E} less = (x y z : E) → less x y ≡ true → less y z ≡ true → less x z ≡ true

module _ {E : Type 0} (less : E → E → Bool) where
  abbrev pub Sorted : List E → Type 0
  Sorted [] = Unit {0}
  Sorted (x ∷ xs) = All (λ y. less x y ≡ true) xs × Sorted xs

  set_erase-All : (P : E → Type 0) (e : E) (xs : List E) → All P xs → All P (set_erase less e xs)
  unfolding set_erase
  set_erase-All P e [] ps = tt
  set_erase-All P e (x ∷ xs) (p, ps) = elim (Bool-cases (not (less x e) && not (less e x))) [
    | inl found ↦ rw found ps
    | inr other ↦ rw other (p, set_erase-All P e xs ps)
  ]

  set_erase-Sorted : (e : E) (xs : List E) → Sorted xs → Sorted (set_erase less e xs)
  unfolding set_erase
  set_erase-Sorted e [] v = tt
  set_erase-Sorted e (x ∷ xs) (above, v) = elim (Bool-cases (not (less x e) && not (less e x))) [
    | inl found ↦ rw found v
    | inr other ↦ rw other (set_erase-All _ e xs above, set_erase-Sorted e xs v)
  ]

  set_insert-All :
      (P : E → Type 0) (e : E) (xs : List E) → P e → All P xs → All P (set_insert less e xs)
  unfolding set_insert
  set_insert-All P e [] p ps = (p, tt)
  set_insert-All P e (x ∷ xs) p (q, qs) = elim (Bool-cases (less e x)) [
    | inl before ↦ rw before (p, (q, qs))
    | inr later ↦ elim (Bool-cases (less x e)) [
      | inl after ↦ rw (later, after) (q, set_insert-All P e xs p qs)
      | inr same ↦ rw (later, same) (q, qs)
    ]
  ]

  set_insert-Sorted :
      IsTransitive less → (e : E) (xs : List E) → Sorted xs → Sorted (set_insert less e xs)
  unfolding set_insert
  set_insert-Sorted trans e [] v = (tt, tt)
  set_insert-Sorted trans e (x ∷ xs) (above, v) = elim (Bool-cases (less e x)) [
    | inl before ↦
        rw before ((before, All-map _ _ xs (λ y h. trans e x y before h) above), (above, v))
    | inr later ↦ elim (Bool-cases (less x e)) [
      | inl after ↦
          rw (later, after) (set_insert-All _ e xs after above, set_insert-Sorted trans e xs v)
      | inr same ↦ rw (later, same) (above, v)
    ]
  ]

  take-All : (P : E → Type 0) (n : ℕ) (xs : List E) → All P xs → All P (take n xs)
  take-All P zero xs ps = tt
  take-All P (suc n) [] ps = tt
  take-All P (suc n) (x ∷ xs) (p, ps) = (p, take-All P n xs ps)

  take-Sorted : (n : ℕ) (xs : List E) → Sorted xs → Sorted (take n xs)
  take-Sorted zero xs v = tt
  take-Sorted (suc n) [] v = tt
  take-Sorted (suc n) (x ∷ xs) (above, v) = (take-All _ n xs above, take-Sorted n xs v)

  set_of-All : (P : E → Type 0) (es : List E) → All P es → All P (set_of less es)
  unfolding set_of
  set_of-All P es ps = go es [] ps tt
    where
      go :
          (es xs : List E)
          → All P es
          → All P xs
          → All P (foldl (λ xs e. set_insert less e xs) xs es)
      go [] xs ps qs = qs
      go (e ∷ es) xs (p, ps) qs = go es (set_insert less e xs) ps (set_insert-All P e xs p qs)

  set_of-Sorted : IsTransitive less → (es : List E) → Sorted (set_of less es)
  unfolding set_of
  set_of-Sorted trans es = go es [] tt
    where
      go : (es xs : List E) → Sorted xs → Sorted (foldl (λ xs e. set_insert less e xs) xs es)
      go [] xs v = v
      go (e ∷ es) xs v = go es (set_insert less e xs) (set_insert-Sorted trans e xs v)

module _ {W : Type 0} ⦃d : Double W⦄ where
  abbrev pub HasVolume : OrderBookEntry W → Type 0
  HasVolume e = d.lt zero_double e.volume ≡ true

  -- One side: in strict order, each entry with a volume.
  abbrev pub IsSide :
      (OrderBookEntry W → OrderBookEntry W → Bool) → List (OrderBookEntry W) → Type 0
  IsSide less xs = Sorted less xs × All HasVolume xs

  update_side-IsSide :
      (less : OrderBookEntry W → OrderBookEntry W → Bool)
      → IsTransitive less
      → (e : OrderBookEntry W) (xs : List (OrderBookEntry W)) → IsSide less xs
      → IsSide less (update_side less e xs)
  unfolding update_side
  update_side-IsSide less trans e xs (v, ps) =
      let v' = set_erase-Sorted less e xs v in
      let ps' = set_erase-All less HasVolume e xs ps in
      elim (Bool-cases (d.lt zero_double e.volume)) [
        | inl some_volume ↦ rw some_volume (
          set_insert-Sorted less trans e (set_erase less e xs) v',
          set_insert-All less HasVolume e (set_erase less e xs) some_volume ps',
        )
        | inr nothing ↦ rw nothing (v', ps')
      ]

  abbrev pub IsBook : List (OrderBookEntry W) → List (OrderBookEntry W) → Type 0
  IsBook asks bids = IsSide entry_less_than asks × IsSide entry_greater_than bids

  -- A history of updates.
  abbrev pub update_caches : List (ℤ × OrderBookEntry W) → OrderBookCache W → OrderBookCache W
  update_caches [] c = c
  update_caches ((time, e) ∷ us) c = update_caches us (update_cache time e c)

  module _ (less_trans : IsTransitive (entry_less_than {W = W}))
      (greater_trans : IsTransitive (entry_greater_than {W = W})) where
    update_by_side-IsBook :
        (side : OrderBookSide) (time : ℤ) (e : OrderBookEntry W) (c : OrderBookCache W)
        → IsBook c.asks c.bids
        → let c' = update_by_side side time e c in IsBook c'.asks c'.bids
    unfolding update_by_side
    update_by_side-IsBook ask time e c (asks, bids) =
        (update_side-IsSide entry_less_than less_trans e c.asks asks, bids)
    update_by_side-IsBook bid time e c (asks, bids) =
        (asks, update_side-IsSide entry_greater_than greater_trans e c.bids bids)

    update_caches-IsBook :
        (us : List (ℤ × OrderBookEntry W)) (c : OrderBookCache W)
        → IsBook c.asks c.bids
        → let c' = update_caches us c in IsBook c'.asks c'.bids
    unfolding update_cache
    update_caches-IsBook [] c v = v
    update_caches-IsBook ((time, e) ∷ us) c v =
        update_caches-IsBook us (update_cache time e c) (update_by_side-IsBook e.side time e c v)

    -- Where the comparisons of prices are transitive, the snapshot of a cache that was made from a
    -- book whose entries all have a volume, after any updates, has its asks in strictly rising and
    -- its bids in strictly falling order of price, every entry with a volume, and on each side no more
    -- entries than a depth that is not zero.
    pub snapshot-update_caches-IsBook :
        (s : OrderBookState W) (us : List (ℤ × OrderBookEntry W)) (depth : ℕ)
        → All HasVolume s.asks
        → All HasVolume s.bids
        → let book = snapshot depth (update_caches us (from_snapshot s)) in
          IsBook book.asks book.bids
          × ((depth ≡ 0) ⊎ ((length book.asks ≤ depth) × (length book.bids ≤ depth)))
    unfolding snapshot from_snapshot
    snapshot-update_caches-IsBook s us depth asks bids =
        let c = update_caches us (from_snapshot s) in
        let (ordered, ordered') = update_caches-IsBook us (from_snapshot s) (
          (
            set_of-Sorted entry_less_than less_trans s.asks,
            set_of-All entry_less_than HasVolume s.asks asks,
          ),
          (
            set_of-Sorted entry_greater_than greater_trans s.bids,
            set_of-All entry_greater_than HasVolume s.bids bids,
          ),
        ) in
        let deepest =
          if ltb (length c.asks) (length c.bids) then length c.bids else length c.asks in
        let n = if depth == 0 then deepest else depth in
        (
          (
            (
              take-Sorted entry_less_than n c.asks ordered.0,
              take-All entry_less_than HasVolume n c.asks ordered.1,
            ),
            (
              take-Sorted entry_greater_than n c.bids ordered'.0,
              take-All entry_greater_than HasVolume n c.bids ordered'.1,
            ),
          ),
          elim (Bool-cases (depth == 0)) [
            | inl whole ↦ inl (ground arith)
            | inr deep ↦
                inr (ground (arith, length-take n c.asks), ground (arith, length-take n c.bids))
          ],
        )
