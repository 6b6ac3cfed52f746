-- ===== src/Websockets/Live/Steps.antt =====
-- A history of a stream: updates, unsubscriptions and disconnections. Disconnecting a stream that has no
-- connection is undefined, and so is what follows.
use marketblocks.Prelude.{
  true, false, Option, none, some, List, [], ◌∷◌, ◌≡◌, refl, inl, inr, arith, Option-cases,
  if◌then◌else◌, lookup,
}
use marketblocks.Double.{Double}
use marketblocks.Common.Run.{Run, returns, throws, undefined}
use marketblocks.Websockets.Live.{LiveStream, Connections, disconnect, clear_subscriptions}
use marketblocks.Websockets.Live.View.{
  LiveEvent, LiveView, Implements, note, happen, happen-Implements,
}

pub data LiveStep (W : Type 0) : Type 0 where
  event : LiveEvent W → LiveStep W
  disconnects : LiveStep W

-- The object after a call that returned or threw; `none` where the call is undefined.
abbrev left : {S A : Type 0} → Run S A → Option S
left (returns a s) = some s
left (throws e s) = some s
left undefined = none

module _ {W C : Type 0} ⦃d : Double W⦄ (connections : Connections C) where
  unfoldable pub step : LiveStep W → LiveStream W C → Option (LiveStream W C)
  unfolding happen disconnect
  step (event e) l = some (happen e l)
  step disconnects l = left (disconnect connections l)

  unfoldable pub steps : List (LiveStep W) → LiveStream W C → Option (LiveStream W C)
  unfolding step
  steps [] l = some l
  steps (e ∷ es) l = elim (step e l) [ none ↦ none | some l' ↦ steps es l' ]

module _ {W : Type 0} ⦃d : Double W⦄ where
  -- The abstract stream forgets everything where it is disconnected.
  abbrev view_step : LiveStep W → LiveView W → Option (LiveView W)
  view_step (event e) v = some (note e v)
  view_step disconnects v =
      if v.is_connected
      then some record v {
        last_trade = λ name. none;
        last_candle = λ name. none;
        last_book = λ name. none;
      }
      else none

  abbrev pub view_steps : List (LiveStep W) → LiveView W → Option (LiveView W)
  view_steps [] v = some v
  view_steps (e ∷ es) v = elim (view_step e v) [ none ↦ none | some v' ↦ view_steps es v' ]

-- Both are defined and agree, or neither is defined.
abbrev pub Together : {L V : Type 0} → (L → V → Type 0) → Option L → Option V → Type 0
Together R none none = Unit
Together R none (some v) = ⊥
Together R (some l) none = ⊥
Together R (some l) (some v) = R l v

pub Together-map :
    {L V : Type 0} (R Q : L → V → Type 0)
    → ((l : L) (v : V) → R l v → Q l v)
    → (m : Option L) (n : Option V) → Together R m n
    → Together Q m n
Together-map R Q f none none h = h
Together-map R Q f none (some v) h = h
Together-map R Q f (some l) none h = h
Together-map R Q f (some l) (some v) h = f l v h

then-Together :
    {L V : Type 0} (R : L → V → Type 0) (m : Option L) (n : Option V) (f : L → Option L)
    (g : V → Option V)
    → Together R m n
    → ((l : L) (v : V) → R l v → Together R (f l) (g v))
    → Together R (elim m [ none ↦ none | some l ↦ f l ]) (elim n [ none ↦ none | some v ↦ g v ])
then-Together R none none f g h k = h
then-Together R none (some v) f g h k = absurd h
then-Together R (some l) none f g h k = absurd h
then-Together R (some l) (some v) f g h k = k l v h

module _ {W C : Type 0} ⦃d : Double W⦄ (connections : Connections C) where
  step-Implements :
      (e : LiveStep W) (l : LiveStream W C) (v : LiveView W)
      → Implements l v
      → Together Implements (step connections e l) (view_step e v)
  unfolding step disconnect clear_subscriptions lookup
  step-Implements (event e) l v i = happen-Implements e l v i
  step-Implements disconnects l v i = elim (Option-cases l.connection) [
    | inl absent ↦
        let away : v.is_connected ≡ false = ground (arith, i.connection_agrees) in
        rw (disconnect, absent, away) _
    | inr (c, present) ↦
        let there : v.is_connected ≡ true = ground (arith, i.connection_agrees) in
        rw (disconnect, present, there)
          (record {
            trades_agree = λ name. refl;
            candles_agree = λ id. refl;
            books_agree = λ name. refl;
            connection_agrees = refl;
          })
  ]

  pub steps-Implements :
      (es : List (LiveStep W)) (l : LiveStream W C) (v : LiveView W)
      → Implements l v
      → Together Implements (steps connections es l) (view_steps es v)
  unfolding steps
  steps-Implements [] l v i = i
  steps-Implements (e ∷ es) l v i =
      then-Together Implements (step connections e l) (view_step e v) (steps connections es)
        (view_steps es) (step-Implements e l v i) (λ l' v' h. steps-Implements es l' v' h)
