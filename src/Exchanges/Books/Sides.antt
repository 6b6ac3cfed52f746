-- ===== src/Exchanges/Books/Sides.antt =====
-- The loop that reads both sides of an order book in turns, against one loop for each side.
use marketblocks.Prelude.{
  ℕ, zero, suc, ◌-◌, ◌≤◌, ◌≡◌, refl, sym, ◌∙◌, ap, ◌↔◌, List, [], ◌∷◌, ◌++◌, length, arith, ltb,
  if◌then◌else◌,
}
use mathlib.Core.Path.{subst}
use mathlib.Core.List.{append-nil, append_assoc}
use marketblocks.Common.Json.{Read, value, ◌>>=◌, read_each}
use marketblocks.Common.Json.Loops.{value_inj, bind-value}
use marketblocks.Exchanges.Books.{Side, read_next, read_rounds, read_sides}

module _ {X E : Type 0} where
  -- A side that reads the rest of its items ends with these entries.
  abbrev Completes : (X → Read E) → Side X E → List E → Type 0
  Completes read (xs, es) total =
      (rest : List E) × (read_each read xs ≡ value rest) × (es ++ rest ≡ total)

  read_each-cons :
      (read : X → Read E) (x : X) (xs : List X) (rest : List E)
      → read_each read (x ∷ xs) ≡ value rest
      → (e : E) × (es : List E) × (read x ≡ value e)
        × (read_each read xs ≡ value es)
        × (e ∷ es ≡ rest)
  unfolding read_each
  read_each-cons read x xs rest h =
      let (e, p, k) =
        bind-value (read x) (λ e. read_each read xs >>= λ es. value (e ∷ es)) rest h in
      let (es, q, same) = bind-value (read_each read xs) (λ es. value (e ∷ es)) rest k in
      (e, es, p, q, value_inj same)

  length-next :
      (read : X → Read E) (s next : Side X E)
      → read_next read s ≡ value next
      → length next.0 ≡ length s.0 - 1
  unfolding read_next
  length-next read ([], es) next h = sym (ap (λ (s : Side X E). length s.0) (value_inj h))
  length-next read (x ∷ xs, es) next h =
      let (e, p, k) = bind-value (read x) (λ e. value (xs, es ++ e ∷ [])) next h in
      let same : length xs ≡ length next.0 = ap (λ (s : Side X E). length s.0) (value_inj k) in
      omega (arith, same)

  next-Completes :
      (read : X → Read E) (s : Side X E) (total : List E)
      → Completes read s total
      → (next : Side X E) × (read_next read s ≡ value next) × Completes read next total
  unfolding read_next
  next-Completes read ([], es) total c = (([], es), refl, c)
  next-Completes read (x ∷ xs, es) total (rest, done, same) =
      let (e, later, p, q, parts) = read_each-cons read x xs rest done in
      (
        (xs, es ++ e ∷ []),
        rw p refl,
        (later, q, append_assoc es (e ∷ []) later ∙ ap (λ r. es ++ r) parts ∙ same),
      )

  Completes-next :
      (read : X → Read E) (s next : Side X E) (total : List E)
      → read_next read s ≡ value next
      → Completes read next total
      → Completes read s total
  unfolding read_next read_each
  Completes-next read ([], es) next total h c =
      subst (λ s. Completes read s total) (sym (value_inj h)) c
  Completes-next read (x ∷ xs, es) next total h c =
      let (e, p, k) = bind-value (read x) (λ e. value (xs, es ++ e ∷ [])) next h in
      let (later, q, same) : Completes read (xs, es ++ e ∷ []) total =
        subst (λ s. Completes read s total) (sym (value_inj k)) c in
      (e ∷ later, rw (p, q) refl, sym (append_assoc es (e ∷ []) later) ∙ same)

  nil-Completes : (read : X → Read E) (s : Side X E) → length s.0 ≤ 0 → Completes read s s.1
  unfolding read_each
  nil-Completes read ([], es) h = ([], refl, append-nil es)
  nil-Completes read (x ∷ xs, es) h = absurd (omega arith)

  Completes-nil :
      (read : X → Read E) (s : Side X E) (total : List E)
      → length s.0 ≤ 0
      → Completes read s total
      → s.1 ≡ total
  unfolding read_each
  Completes-nil read ([], es) total h (rest, p, same) =
      sym (append-nil es) ∙ ap (λ r. es ++ r) (value_inj p) ∙ same
  Completes-nil read (x ∷ xs, es) total h c = absurd (omega arith)

  module _ (read_ask read_bid : X → Read E) where
    rounds-Completes :
        (n : ℕ) (s t : Side X E) (ends : Side X E × Side X E)
        → length s.0 ≤ n
        → length t.0 ≤ n
        → read_rounds read_ask read_bid n s t ≡ value ends
        → Completes read_ask s ends.0.1 × Completes read_bid t ends.1.1
    unfolding read_rounds
    rounds-Completes zero s t ends p q h =
        subst (λ (e : Side X E × Side X E). Completes read_ask s e.0.1 × Completes read_bid t e.1.1)
          (value_inj h) (nil-Completes read_ask s p, nil-Completes read_bid t q)
    rounds-Completes (suc n) s t ends p q h =
        let (s1, f, k) =
          bind-value (read_next read_ask s)
            (λ s1. read_next read_bid t >>= (λ t1. read_rounds read_ask read_bid n s1 t1)) ends h in
        let (t1, g, m) =
          bind-value (read_next read_bid t) (read_rounds read_ask read_bid n s1) ends k in
        let (c, d) =
          rounds-Completes n s1 t1 ends (omega (arith, length-next read_ask s s1 f))
            (omega (arith, length-next read_bid t t1 g)) m in
        (Completes-next read_ask s s1 ends.0.1 f c, Completes-next read_bid t t1 ends.1.1 g d)

    Completes-rounds :
        (n : ℕ) (s t : Side X E) (es fs : List E)
        → length s.0 ≤ n
        → length t.0 ≤ n
        → Completes read_ask s es
        → Completes read_bid t fs
        → (ends : Side X E × Side X E) × (read_rounds read_ask read_bid n s t ≡ value ends)
          × (ends.0.1 ≡ es)
          × (ends.1.1 ≡ fs)
    unfolding read_rounds
    Completes-rounds zero s t es fs p q c d =
        ((s, t), refl, Completes-nil read_ask s es p c, Completes-nil read_bid t fs q d)
    Completes-rounds (suc n) s t es fs p q c d =
        let (s1, f, c1) = next-Completes read_ask s es c in
        let (t1, g, d1) = next-Completes read_bid t fs d in
        let (ends, k, e, e') =
          Completes-rounds n s1 t1 es fs (omega (arith, length-next read_ask s s1 f))
            (omega (arith, length-next read_bid t t1 g)) c1 d1 in
        (ends, rw (f, g) k, e, e')

    -- The loop in turns reads both sides of a book exactly where one loop for each side reads them, and
    -- gives the same entries in the same order.
    pub read_sides_iff :
        (asks bids : List X) (es fs : List E)
        → (read_sides read_ask read_bid asks bids ≡ value (es, fs))
          ↔ ((read_each read_ask asks ≡ value es) × (read_each read_bid bids ≡ value fs))
    unfolding read_sides
    read_sides_iff asks bids es fs =
        let n = if ltb (length asks) (length bids) then length bids else length asks in
        let p : length asks ≤ n = ground arith in
        let q : length bids ≤ n = ground arith in
        (
          λ h.
              let (ends, k, same) =
                bind-value (read_rounds read_ask read_bid n (asks, []) (bids, []))
                  (λ sides. value (sides.0.1, sides.1.1)) (es, fs) h in
              let ((es', f, e), (fs', g, e')) =
                rounds-Completes n (asks, []) (bids, []) ends p q k in
              (
                f ∙ ap value (e ∙ ap (λ (x : List E × List E). x.0) (value_inj same)),
                g ∙ ap value (e' ∙ ap (λ (x : List E × List E). x.1) (value_inj same)),
              ),
          λ (f, g).
              let (ends, k, e, e') =
                Completes-rounds n (asks, []) (bids, []) es fs p q (es, f, refl) (fs, g, refl) in
              rw (k, e, e') refl,
        )
