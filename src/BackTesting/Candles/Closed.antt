-- ===== src/BackTesting/Candles/Closed.antt =====
-- Which candle a merged candle closes as.
use marketblocks.Prelude.{
  ℕ, ℤ, zero, suc, ◌+◌, ◌-◌, ◌<◌, ◌≤◌, some, List, [], ◌∷◌, ◌≡◌, refl, sym, ◌∙◌, ◌⊎◌, inl, inr,
  arith, foldl, take, drop, ap, length, get_elem?, get_elem?-some, ◌≤ℤ◌, ◌<ℤ◌, ◌+ℤ◌, ltb_ℤ, ◌==◌,
  nat_equality, Bool-cases, ltb→lt, ltb→ge,
}
use mathlib.Core.Path.{subst}
use mathlib.Core.Option.{some-injective}
use marketblocks.Double.{Double}
use marketblocks.Trading.Market.{OhlcvData}
use marketblocks.BackTesting.Candles.{end_of, merge_one}

module _ {W : Type 0} where
  -- A merged candle closes as a candle `c`: as the one at `last` where this is earlier than the end of the
  -- interval, and otherwise as the one before it, but never as one before the start.
  abbrev pub IsClosed : List (OhlcvData W) → ℤ → ℕ → ℕ → OhlcvData W → Type 0
  IsClosed os interval last s m =
      (k : ℕ) × ((c : OhlcvData W) × ((e : OhlcvData W) × (get_elem? os last ≡ some e)
          × (get_elem? os k ≡ some c)
          × (m.close ≡ c.close)
          × (((e.time_stamp <ℤ (m.time_stamp +ℤ interval)) × (k ≡ last))
              ⊎ (((m.time_stamp +ℤ interval) ≤ℤ e.time_stamp)
                  × ((k + 1 ≡ last) ⊎ ((k ≡ s) × (s ≡ last)))))))

  get_elem?-drop :
      (os : List (OhlcvData W)) (s n k : ℕ) → k ≡ s + n → get_elem? (drop s os) n ≡ get_elem? os k
  get_elem?-drop os zero n k h = ap (get_elem? os) (omega (arith, h))
  get_elem?-drop [] (suc s) n k h = ground arith
  get_elem?-drop (o ∷ os) (suc s) n zero h = absurd (omega (arith, h))
  get_elem?-drop (o ∷ os) (suc s) n (suc k) h = get_elem?-drop os s n k (omega (arith, h))

module _ {W : Type 0} ⦃d : Double W⦄ where
  merge_one-close :
      (m o c : OhlcvData W) (os : List (OhlcvData W)) (n : ℕ)
      → m.close ≡ o.close
      → get_elem? (o ∷ os) n ≡ some c
      → (foldl merge_one m (take n os)).close ≡ c.close
  unfolding merge_one
  merge_one-close m o c os zero h e = h ∙ ap (λ (x : OhlcvData W). x.close) (some-injective _ _ e)
  merge_one-close m o c [] (suc n) h e = absurd (ground arith)
  merge_one-close m o c (p ∷ os) (suc n) h e = merge_one-close (merge_one m p) p c os n refl e

  -- The merged candle of a round closes where its interval ends.
  pub merged-IsClosed :
      (os after : List (OhlcvData W)) (interval target : ℤ) (last s : ℕ) (o e m : OhlcvData W)
      → get_elem? os last ≡ some e
      → get_elem? os s ≡ some o
      → drop s os ≡ o ∷ after
      → s ≤ last
      → last < length os
      → m
        ≡ foldl merge_one
            (record o { time_stamp = target })
            (take (end_of (target +ℤ interval) last e - (s + 1)) after)
      → m.time_stamp ≡ target
      → IsClosed os interval last s m
  unfolding end_of
  merged-IsClosed os after interval target last s o e m at there left below room same stamp =
      let n = end_of (target +ℤ interval) last e - (s + 1) in
      let closes : (k : ℕ) (c : OhlcvData W)
          → k ≡ s + n
          → get_elem? os k ≡ some c
          → m.close ≡ c.close =
        λ k c h found.
          ap (λ (x : OhlcvData W). x.close) same
          ∙ merge_one-close (record o { time_stamp = target }) o c after n refl
              (subst (λ xs. get_elem? xs n ≡ some c) left (get_elem?-drop os s n k h ∙ found)) in
      elim (Bool-cases (ltb_ℤ e.time_stamp (target +ℤ interval))) [
        | inl inside ↦ (
          last,
          (
            e,
            (
              e,
              at,
              at,
              closes last e (ground arith) at,
              inl (
                subst (λ t. e.time_stamp <ℤ (t +ℤ interval)) (sym stamp) (ltb→lt _ _ inside),
                refl,
              ),
            ),
          ),
        )
        | inr outside ↦
            let over =
              subst (λ t. (t +ℤ interval) ≤ℤ e.time_stamp) (sym stamp) (ltb→ge _ _ outside) in
            elim (Bool-cases (s == last)) [
              | inl alone ↦
                  let end : s ≡ last = ground arith in
                  (
                    s,
                    (
                      o,
                      (e, at, there, closes s o (ground arith) there, inr (over, inr (refl, end))),
                    ),
                  )
              | inr more ↦
                  let (c, found) = get_elem?-some os (last - 1) (omega (arith, room)) in
                  (
                    last - 1,
                    (
                      c,
                      (
                        e,
                        at,
                        found,
                        closes (last - 1) c (ground arith) found,
                        inr (over, inl (ground arith)),
                      ),
                    ),
                  )
            ]
      ]
