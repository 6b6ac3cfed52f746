-- ===== src/BackTesting/Cursor/Locate.antt =====
-- The search that starts from the cache finds what a search through all candles finds.
use marketblocks.Prelude.{
  ℕ, ℤ, zero, suc, ◌+◌, ◌<◌, Option, none, some, List, [], ◌∷◌, ◌≡◌, refl, sym, ◌⊎◌, inl, inr, ap,
  arith, length, get_elem?, drop, All, All-map, All-get_elem?, ◌≤ℤ◌, ◌<ℤ◌, ltb_ℤ, eqb_ℤ, lookup,
  lookup_or, insert_or_assign, lookup-insert_or_assign, ltb→lt, ltb→ge, Bool-cases, Option-cases,
}
use mathlib.Core.Path.{subst}
use mathlib.Core.Option.{some-injective}
use marketblocks.Common.Run.{Run, returns, throws, undefined}
use marketblocks.Trading.Pair.{TradablePair, pair_equality}
use marketblocks.Trading.Market.{OhlcvData}
use marketblocks.BackTesting.Cursor.{IteratorCache, scan, last_stamp, get_iterator}

module _ {W : Type 0} where
  -- The candles stand in strictly rising order of time.
  abbrev pub IsRising : List (OhlcvData W) → Type 0
  IsRising [] = Unit {0}
  IsRising (o ∷ os) = All (λ p. o.time_stamp <ℤ p.time_stamp) os × IsRising os

  -- The candle at an index is not later than a moment.
  abbrev pub IsBehind : ℤ → List (OhlcvData W) → ℕ → Type 0
  IsBehind time os i = (o : OhlcvData W) × (get_elem? os i ≡ some o) × (o.time_stamp ≤ℤ time)

  -- The last candle that is not later than a moment.
  abbrev pub IsLatest : ℤ → List (OhlcvData W) → ℕ → Type 0
  IsLatest time os i =
      IsBehind time os i
      × ((j : ℕ) (p : OhlcvData W) → i < j → get_elem? os j ≡ some p → time <ℤ p.time_stamp)

  abbrev pub Located : ℤ → List (OhlcvData W) → Option ℕ → Type 0
  Located time os none = All (λ o. time <ℤ o.time_stamp) os
  Located time os (some i) = IsLatest time os i

  IsLatest-head :
      (time : ℤ) (o : OhlcvData W) (os : List (OhlcvData W))
      → o.time_stamp ≤ℤ time
      → All (λ p. time <ℤ p.time_stamp) os
      → IsLatest time (o ∷ os) 0
  IsLatest-head time o os h later = ((o, refl, h), λ j p before at. after j p before at)
    where
      after :
          (j : ℕ) (p : OhlcvData W) → 0 < j → get_elem? (o ∷ os) j ≡ some p → time <ℤ p.time_stamp
      after zero p before at = absurd (omega arith)
      after (suc j) p before at = All-get_elem? _ os j p later at

  IsLatest-tail :
      (time : ℤ) (o : OhlcvData W) (os : List (OhlcvData W)) (i : ℕ)
      → IsLatest time os i
      → IsLatest time (o ∷ os) (suc i)
  IsLatest-tail time o os i (behind, later) = (behind, λ j p before at. after j p before at)
    where
      after :
          (j : ℕ) (p : OhlcvData W)
          → suc i < j
          → get_elem? (o ∷ os) j ≡ some p
          → time <ℤ p.time_stamp
      after zero p before at = absurd (omega arith)
      after (suc j) p before at = later j p (omega arith) at

  IsLatest-drop :
      (time : ℤ) (n : ℕ) (os : List (OhlcvData W)) (i : ℕ)
      → n < length os
      → IsLatest time (drop n os) i
      → IsLatest time os (n + i)
  IsLatest-drop time zero os i h v = subst (IsLatest time os) (omega arith) v
  IsLatest-drop time (suc n) [] i h v = absurd (omega arith)
  IsLatest-drop time (suc n) (o ∷ os) i h v =
      subst (IsLatest time (o ∷ os)) (omega arith)
        (IsLatest-tail time o os (n + i) (IsLatest-drop time n os i (omega arith) v))

  -- The loop, from a candle that is not late, stops at the last such candle.
  scan-IsLatest :
      (time : ℤ) (o : OhlcvData W) (os : List (OhlcvData W)) (i : ℕ)
      → IsRising (o ∷ os)
      → o.time_stamp ≤ℤ time
      → time ≤ℤ last_stamp o.time_stamp os
      → (k : ℕ) × (scan time (o ∷ os) i ≡ some (i + k)) × IsLatest time (o ∷ os) k
  unfolding scan
  scan-IsLatest time o [] i rising here last = (0, ground arith, IsLatest-head time o [] here tt)
  scan-IsLatest time o (p ∷ os) i (above, rising) here last =
      elim (Bool-cases (ltb_ℤ time p.time_stamp)) [
        | inl over ↦
            let late : All (λ q. time <ℤ q.time_stamp) (p ∷ os) =
              (ltb→lt _ _ over, All-map _ _ os (λ q r. omega (arith, ltb→lt _ _ over)) rising.0) in
            (0, ground arith, IsLatest-head time o (p ∷ os) here late)
        | inr next ↦ elim (Bool-cases (eqb_ℤ o.time_stamp time)) [
          | inl exact ↦
              let late : All (λ q. time <ℤ q.time_stamp) (p ∷ os) =
                All-map _ _ (p ∷ os) (λ q r. ground arith) above in
              (0, ground arith, IsLatest-head time o (p ∷ os) here late)
          | inr before ↦
              let (k, found, latest) =
                scan-IsLatest time p os (i + 1) rising (ltb→ge _ _ next) last in
              (suc k, ground (arith, found), IsLatest-tail time o (p ∷ os) k latest)
        ]
      ]

  drop-IsRising : (n : ℕ) (os : List (OhlcvData W)) → IsRising os → IsRising (drop n os)
  drop-IsRising zero os v = v
  drop-IsRising (suc n) [] v = v
  drop-IsRising (suc n) (o ∷ os) (h, v) = drop-IsRising n os v

  -- What is left from an index that is in range.
  drop-cons :
      (n : ℕ) (os : List (OhlcvData W)) (o : OhlcvData W) (start : ℤ)
      → get_elem? os n ≡ some o
      → (n < length os)
        × ((ps : List (OhlcvData W)) × (drop n os ≡ o ∷ ps)
            × (last_stamp o.time_stamp ps ≡ last_stamp start os))
  drop-cons n [] o start e = cc
  drop-cons zero (p ∷ os) o start e =
      let same = some-injective _ _ e in
      (
        omega arith,
        (
          os,
          ap (λ q. q ∷ os) same,
          ap (λ (q : OhlcvData W). last_stamp q.time_stamp os) (sym same),
        ),
      )
  drop-cons (suc n) (p ∷ os) o start e =
      let (room, rest) = drop-cons n os o p.time_stamp e in (omega (arith, room), rest)

  -- What a search leaves in the cache: an entry for the pair that is not late, and the others.
  abbrev pub Keeps : TradablePair → ℤ → List (OhlcvData W) → IteratorCache → IteratorCache → Type 0
  Keeps pair time os cache cache' =
      (q : TradablePair) (i : ℕ)
      → lookup q cache' ≡ some i
      → (lookup q cache ≡ some i) ⊎ ((pair ≡ q) × IsBehind time os i)

  abbrev pub Finds :
      TradablePair → ℤ → List (OhlcvData W) → IteratorCache → Run IteratorCache (Option ℕ) → Type 0
  Finds pair time os cache (returns found cache') =
      Located time os found × Keeps pair time os cache cache'
  Finds pair time os cache (throws e cache') = ⊥
  Finds pair time os cache undefined = ⊥

  insert-Keeps :
      (pair : TradablePair) (time : ℤ) (os : List (OhlcvData W)) (cache : IteratorCache) (i : ℕ)
      → IsBehind time os i
      → Keeps pair time os cache (insert_or_assign pair i cache)
  insert-Keeps pair time os cache i behind q j e = elim (Bool-cases (pair_equality.beq pair q)) [
    | inl same ↦
        let hit : some i ≡ some j = ground (arith, lookup-insert_or_assign pair q i cache) in
        inr (
          (pair_equality.beq_iff pair q).0 same,
          subst (IsBehind time os) (some-injective _ _ hit) behind,
        )
    | inr differ ↦ inl (ground (arith, lookup-insert_or_assign pair q i cache))
  ]

  -- From the last candle on, every moment is served by it.
  IsLatest-last :
      (time : ℤ) (o : OhlcvData W) (os : List (OhlcvData W))
      → last_stamp o.time_stamp os <ℤ time
      → IsLatest time (o ∷ os) (length os)
  IsLatest-last time o [] h = IsLatest-head time o [] (omega arith) tt
  IsLatest-last time o (p ∷ os) h =
      IsLatest-tail time o (p ∷ os) (length os) (IsLatest-last time p os h)

  start-IsBehind :
      (pair : TradablePair) (time : ℤ) (o : OhlcvData W) (os : List (OhlcvData W))
      (cache : IteratorCache)
      → o.time_stamp ≤ℤ time
      → ((i : ℕ) → lookup pair cache ≡ some i → IsBehind time (o ∷ os) i)
      → IsBehind time (o ∷ os) (lookup_or pair 0 cache)
  unfolding lookup_or
  start-IsBehind pair time o os cache here ready = elim (Option-cases (lookup pair cache)) [
    | inl e ↦ rw (lookup_or, e) (o, refl, here)
    | inr (i, e) ↦ rw (lookup_or, e) (ready i e)
  ]

  -- On candles in strictly rising order of time, and from a cached position that is not late, the
  -- search is defined, and finds the last candle that is not later than the moment, or nothing if
  -- there is none. The position that it caches is not late, and no other pair's is changed.
  pub get_iterator-Finds :
      (os : List (OhlcvData W)) (pair : TradablePair) (time : ℤ) (cache : IteratorCache)
      → IsRising os
      → ((i : ℕ) → lookup pair cache ≡ some i → IsBehind time os i)
      → Finds pair time os cache (get_iterator os pair time cache)
  unfolding get_iterator
  get_iterator-Finds [] pair time cache rising ready = (tt, λ q i e. inl e)
  get_iterator-Finds (o ∷ os) pair time cache rising ready =
      elim (Bool-cases (ltb_ℤ time o.time_stamp)) [
        | inl early ↦ rw early (
          (ltb→lt _ _ early, All-map _ _ os (λ p h. omega (arith, ltb→lt _ _ early)) rising.0),
          λ q i e. inl e,
        )
        | inr started ↦ elim (Bool-cases (ltb_ℤ (last_stamp o.time_stamp os) time)) [
          | inl over ↦
              rw (started, over) (IsLatest-last time o os (ltb→lt _ _ over), λ q i e. inl e)
          | inr inside ↦
              let start = lookup_or pair 0 cache in
              let (p, at, behind) =
                start-IsBehind pair time o os cache (ltb→ge _ _ started) ready in
              let (room, (ps, rest, same)) = drop-cons start (o ∷ os) p o.time_stamp at in
              let left = subst IsRising rest (drop-IsRising start (o ∷ os) rising) in
              let (k, found, latest) =
                scan-IsLatest time p ps start left behind
                  (subst (λ t. time ≤ℤ t) (sym same) (ltb→ge _ _ inside)) in
              let whole =
                IsLatest-drop time start (o ∷ os) k room
                  (subst (λ x. IsLatest time x k) (sym rest) latest) in
              rw (started, inside, rest, found)
                (whole, insert-Keeps pair time (o ∷ os) cache (start + k) whole.0)
        ]
      ]
