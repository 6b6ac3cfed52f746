-- ===== src/BackTesting/Candles/Merged.antt =====
-- The merged candles: the loop reads inside the vector, and steps back one interval a round.
use marketblocks.Prelude.{
  max_ℤ, drop-some, ℕ, ℤ, zero, suc, ◌+◌, ◌-◌, ◌<◌, ◌≤◌, some, List, [], ◌∷◌, ◌≡◌, refl, sym, ◌∙◌,
  ◌⊎◌, inl, inr, arith, foldl, take, length, get_elem?, get_elem?-some, ◌≤ℤ◌, ◌<ℤ◌, ◌+ℤ◌, ◌-ℤ◌,
  ltb_ℤ, eqb_ℤ, eqb_ℤ_iff, ◌&&◌, ◌==◌, nat_equality, Bool-cases, ltb→lt, ltb→ge,
}
use mathlib.Core.Path.{subst}
use mathlib.Core.Option.{some-injective}
use marketblocks.Double.{Double}
use marketblocks.Trading.Market.{OhlcvData}
use marketblocks.BackTesting.Candles.{
  rewind, end_of, merge_one, merge_ohlcv, merge_round, merge_rounds,
}
use marketblocks.BackTesting.Candles.Closed.{IsClosed, merged-IsClosed}

module _ {W : Type 0} where
  -- The last candle at or before a position that is not later than a moment, or the first of all.
  abbrev pub IsStart : List (OhlcvData W) → ℤ → ℕ → ℕ → OhlcvData W → Type 0
  IsStart os target last s o =
      (get_elem? os s ≡ some o)
      × (s ≤ last)
      × ((s ≡ 0) ⊎ (o.time_stamp ≤ℤ target))
      × ((j : ℕ) (p : OhlcvData W)
          → s < j
          → j ≤ last
          → get_elem? os j ≡ some p
          → target <ℤ p.time_stamp)

  pub get_elem?-lt :
      (os : List (OhlcvData W)) (i : ℕ) (o : OhlcvData W) → get_elem? os i ≡ some o → i < length os
  get_elem?-lt [] i o e = cc
  get_elem?-lt (p ∷ os) zero o e = omega arith
  get_elem?-lt (p ∷ os) (suc i) o e = omega (arith, get_elem?-lt os i o e)

  rewind-IsStart :
      (os : List (OhlcvData W)) (target : ℤ) (last : ℕ)
      → last < length os
      → (s : ℕ) × ((o : OhlcvData W) × (rewind os target last ≡ some s)
          × IsStart os target last s o)
  unfolding rewind
  rewind-IsStart os target zero room =
      let (o, at) = get_elem?-some os 0 room in
      (0, (o, ground arith, (at, omega arith, inl refl, λ j p h h' e. absurd (omega arith))))
  rewind-IsStart os target (suc i) room =
      let (o, at) = get_elem?-some os (suc i) room in
      let (s, (q, found, (at', below, kind, above))) = rewind-IsStart os target i (omega arith) in
      elim (Bool-cases (ltb_ℤ target o.time_stamp)) [
        | inl over ↦ (
          s,
          (
            q,
            ground (arith, found),
            (
              at',
              omega arith,
              kind,
              λ j p h h' e. elim (Bool-cases (j == suc i)) [
                | inl same ↦
                    subst (λ (x : OhlcvData W). target <ℤ x.time_stamp)
                      (some-injective _ _
                        (sym at ∙ subst (λ k. get_elem? os k ≡ some p) (ground arith) e))
                      (ltb→lt _ _ over)
                | inr differ ↦ above j p h (ground arith) e
              ],
            ),
          ),
        )
        | inr under ↦ (
          suc i,
          (
            o,
            ground arith,
            (at, omega arith, inr (ltb→ge _ _ under), λ j p h h' e. absurd (omega arith)),
          ),
        )
      ]

  -- The candles that the loop gives in at most `n` rounds, from a time backwards: each starts one
  -- interval before the one that precedes it, but never before the first candle, and opens as the
  -- candle that it starts in, which is looked for from the one that the preceding candle starts in
  -- (`last` for the first of them),
  -- and closes as `IsClosed` says; they end early only where the first candle is reached.
  abbrev pub Merged : ℕ → List (OhlcvData W) → ℤ → ℤ → ℕ → ℤ → List (OhlcvData W) → Type 0
  Merged zero os interval first last target ms = ms ≡ []
  Merged (suc n) os interval first last target [] = ⊥
  Merged (suc n) os interval first last target (m ∷ ms) =
      (m.time_stamp ≡ max_ℤ (target -ℤ interval) first)
      × ((s : ℕ) × ((o : OhlcvData W) × IsStart os m.time_stamp last s o
            × (m.opening ≡ o.opening)
            × IsClosed os interval last s m
            × (((ms ≡ []) × (m.time_stamp ≡ first) × (s ≡ 0))
                ⊎ Merged n os interval first s m.time_stamp ms)))

module _ {W : Type 0} ⦃d : Double W⦄ where
  merge_one-start :
      (m : OhlcvData W) (os : List (OhlcvData W))
      → ((foldl merge_one m os).time_stamp ≡ m.time_stamp)
        × ((foldl merge_one m os).opening ≡ m.opening)
  unfolding merge_one
  merge_one-start m [] = (refl, refl)
  merge_one-start m (o ∷ os) = merge_one-start (merge_one m o) os

  -- A round succeeds, and starts at the candle of its time.
  merge_round-IsStart :
      (os : List (OhlcvData W)) (interval target : ℤ) (last : ℕ)
      → last < length os
      → (s : ℕ) × ((m : OhlcvData W) × ((o : OhlcvData W) × (merge_round os interval last target
              ≡ some (s, m))
            × IsStart os target last s o
            × (m.time_stamp ≡ target)
            × (m.opening ≡ o.opening)
            × IsClosed os interval last s m))
  unfolding merge_round merge_ohlcv
  merge_round-IsStart os interval target last room =
      let (e, at) = get_elem?-some os last room in
      let (s, (o, found, starts)) = rewind-IsStart os target last room in
      let (after, left) = drop-some s os o starts.0 in
      let n = end_of (target +ℤ interval) last e - (s + 1) in
      let (stamp, opening) = merge_one-start (record o { time_stamp = target }) (take n after) in
      let m = foldl merge_one (record o { time_stamp = target }) (take n after) in
      (
        s,
        (
          m,
          (
            o,
            ground (arith, at, found, left),
            starts,
            stamp,
            opening,
            merged-IsClosed os after interval target last s o e m at starts.0 left starts.1 room
                refl stamp,
          ),
        ),
      )

  pub merge_rounds-Merged :
      (n : ℕ) (os : List (OhlcvData W)) (interval first : ℤ) (last : ℕ) (target : ℤ)
      → last < length os
      → (ms : List (OhlcvData W)) × (merge_rounds n os interval first last target ≡ some ms)
        × Merged n os interval first last target ms
  unfolding merge_rounds
  merge_rounds-Merged zero os interval first last target room = ([], refl, refl)
  merge_rounds-Merged (suc n) os interval first last target room =
      let target' = max_ℤ (target -ℤ interval) first in
      let (s, (m, (o, round, starts, stamp, opening, closing))) =
        merge_round-IsStart os interval target' last room in
      let starts' = subst (λ t. IsStart os t last s o) (sym stamp) starts in
      elim (Bool-cases (eqb_ℤ target' first && s == 0)) [
        | inl done ↦ (
          m ∷ [],
          ground (arith, round),
          (
            stamp,
            (
              s,
              (
                o,
                starts',
                opening,
                closing,
                inl (refl, stamp ∙ ground (arith, eqb_ℤ_iff target' first), ground arith),
              ),
            ),
          ),
        )
        | inr more ↦
            let (ms, rest, merged) =
              merge_rounds-Merged n os interval first s target' (omega (arith, starts.1)) in
            (
              m ∷ ms,
              ground (arith, round, rest),
              (
                stamp,
                (
                  s,
                  (
                    o,
                    starts',
                    opening,
                    closing,
                    inr (subst (λ t. Merged n os interval first s t ms) (sym stamp) merged),
                  ),
                ),
              ),
            )
      ]
