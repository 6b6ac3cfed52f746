-- ===== src/Websockets/Live/Passive.antt =====
-- Handlers that keep the stream as it is.
use marketblocks.Prelude.{
  Bytes, Bool, true, false, ◌≡◌, refl, List, [], ◌∷◌, All, bytes_equality, lookup, if◌then◌else◌,
  inl, inr, Option-cases,
}
use mathlib.Core.Path.{subst}
use marketblocks.Common.Run.{Run, returns, Ends, and_then-Ends}
use marketblocks.Trading.Pair.{TradablePair}
use marketblocks.Websockets.Handlers.{Handler, fire_handlers, fire}
use marketblocks.Websockets.Live.{LiveWorld}
use marketblocks.Websockets.Live.Updates.{with_pair}

module _ {W C S : Type 0} where
  -- The handlers keep the stream as it is, whatever they do to the rest of the program.
  abbrev pub IsPassive : {M : Type 0} → List (Handler (LiveWorld W C S) M) → Type 0
  IsPassive {M} handlers =
      All
        (λ (h : Handler (LiveWorld W C S) M).
          (m : M) (w : LiveWorld W C S) → Ends (λ w'. w'.stream ≡ w.stream) (h m w))
        handlers

  fire_handlers-IsPassive :
      {M : Type 0} (handlers : List (Handler (LiveWorld W C S) M)) (m : M) (w : LiveWorld W C S)
      → IsPassive handlers
      → Ends (λ w'. w'.stream ≡ w.stream) (fire_handlers handlers m w)
  unfolding fire_handlers
  fire_handlers-IsPassive [] m w p = refl
  fire_handlers-IsPassive {M} (h ∷ hs) m w (p, ps) =
      and_then-Ends (λ w'. w'.stream ≡ w.stream) (λ w'. w'.stream ≡ w.stream) (h m w)
        (λ u t. fire_handlers hs m t) (λ t e. e)
        (λ u t e.
          subst (λ s. Ends (λ (w' : LiveWorld W C S). w'.stream ≡ s) (fire_handlers hs m t)) e
            (fire_handlers-IsPassive hs m t ps))
        (p m w)

  pub fire-IsPassive :
      {M : Type 0} (handlers : List (Handler (LiveWorld W C S) M)) (m : M) (w : LiveWorld W C S)
      → IsPassive handlers
      → Ends (λ w'. w'.stream ≡ w.stream) (fire handlers m w)
  fire-IsPassive [] m w p = refl
  fire-IsPassive (h ∷ hs) m w p = fire_handlers-IsPassive (h ∷ hs) m w p

  -- The lookup of the pair, and the call of the handlers where there are any.
  pub with_pair-IsPassive :
      (name : Bytes) (w : LiveWorld W C S) (fires : TradablePair → Run (LiveWorld W C S) (Unit {0}))
      → ((pair : TradablePair) → Ends (λ w'. w'.stream ≡ w.stream) (fires pair))
      → (b : Bool)
      → Ends (λ w'. w'.stream ≡ w.stream) (if b then with_pair name w fires else returns tt w)
  with_pair-IsPassive name w fires p true = elim (Option-cases (lookup name w.stream.pairs)) [
    | inl h ↦ rw (Ends, h) refl
    | inr (pair, h) ↦ rw (Ends, h) (p pair)
  ]
  with_pair-IsPassive name w fires p false = refl
