-- ===== src/BackTesting/Stream/Statuses.antt =====
-- What `subscribe` and `unsubscribe` of the back test's stream do to the answers of
-- `get_subscription_status`.
use mathlib.Core.Path.{subst}
use marketblocks.Prelude.{
  if◌then◌else◌, Bool, true, false, ◌&&◌, ◌||◌, not, Option, none, some, List, [], ◌∷◌, ◌++◌, ◌≡◌,
  ◌↔◌, refl, sym, ◌∙◌, arith,
}
use marketblocks.Trading.Pair.{TradablePair, pair_beq_iff}
use marketblocks.Websockets.Constants.{
  SubscriptionStatus, subscribed, unsubscribed, WebsocketChannel, order_book, trade, ohlcv,
  OhlcvInterval, channel_beq_iff, interval_beq_iff,
}
use marketblocks.Websockets.Stream.{Subscription}
use marketblocks.BackTesting.Stream.{
  same_subscription, is_in, insert_subscription, erase_subscription, same_parameter, BackTestWorld,
  subscribe, unsubscribe, has_hash, has_hash_of, one_of, change_set, get_subscription_status,
}
use marketblocks.Common.Run.{
  bad_variant_access, Run, returns, throws, undefined, and_then, run_each,
}

same_parameter_trans :
    (c : WebsocketChannel) (p q r : Option OhlcvInterval)
    → same_parameter c p q ≡ true
    → same_parameter c q r ≡ true
    → same_parameter c p r ≡ true
same_parameter_trans trade p q r h k = refl
same_parameter_trans order_book p q r h k = refl
same_parameter_trans ohlcv (some i) (some j) (some l) h k =
    ground (arith, interval_beq_iff i j, interval_beq_iff j l, interval_beq_iff i l)
same_parameter_trans ohlcv none q r h k = ground arith
same_parameter_trans ohlcv (some i) none r h k = ground arith
same_parameter_trans ohlcv (some i) (some j) none h k = ground arith

same_parameter_sym :
    (c : WebsocketChannel) (p q : Option OhlcvInterval)
    → same_parameter c p q ≡ true
    → same_parameter c q p ≡ true
same_parameter_sym trade p q h = refl
same_parameter_sym order_book p q h = refl
same_parameter_sym ohlcv (some i) (some j) h =
    ground (arith, interval_beq_iff i j, interval_beq_iff j i)
same_parameter_sym ohlcv none q h = ground arith
same_parameter_sym ohlcv (some i) none h = ground arith

same_subscription_iff :
    (a b : Subscription TradablePair)
    → (same_subscription a b ≡ true) ↔ (
        (a.channel ≡ b.channel)
        × (a.pair_item ≡ b.pair_item)
        × (same_parameter a.channel a.parameter b.parameter ≡ true))
unfolding same_subscription
same_subscription_iff a b =
    ground (arith, channel_beq_iff a.channel b.channel, pair_beq_iff a.pair_item b.pair_item)

same_subscription_sym :
    (a b : Subscription TradablePair) → same_subscription a b ≡ true → same_subscription b a ≡ true
same_subscription_sym a b h =
    let (c, p, q) = (same_subscription_iff a b).0 h in
    (same_subscription_iff b a).1 (
      sym c,
      sym p,
      subst (λ x. same_parameter x b.parameter a.parameter ≡ true) c
          (same_parameter_sym a.channel a.parameter b.parameter q),
    )

same_subscription_trans :
    (a b c : Subscription TradablePair)
    → same_subscription a b ≡ true
    → same_subscription b c ≡ true
    → same_subscription a c ≡ true
same_subscription_trans a b c h k =
    let (c1, p1, q1) = (same_subscription_iff a b).0 h in
    let (c2, p2, q2) = (same_subscription_iff b c).0 k in
    (same_subscription_iff a c).1 (
      c1 ∙ c2,
      p1 ∙ p2,
      same_parameter_trans a.channel a.parameter b.parameter c.parameter q1
          (subst (λ x. same_parameter x b.parameter c.parameter ≡ true) (sym c1) q2),
    )

-- A subscription that counts as another one is in a set exactly when that is.
is_in-same :
    (s q : Subscription TradablePair) (subs : List (Subscription TradablePair))
    → same_subscription s q ≡ true
    → is_in s subs ≡ true
    → is_in q subs ≡ true
unfolding is_in
is_in-same s q [] h k = k
is_in-same s q (x ∷ xs) h k = ground (arith, same_subscription_trans x s q, is_in-same s q xs)

is_in-append :
    (q s : Subscription TradablePair) (subs : List (Subscription TradablePair))
    → is_in q (subs ++ s ∷ []) ≡ (same_subscription s q || is_in q subs)
unfolding is_in
is_in-append q s [] = refl
is_in-append q s (x ∷ xs) = ground (arith, is_in-append q s xs)

pub is_in-insert_subscription :
    (q s : Subscription TradablePair) (subs : List (Subscription TradablePair))
    → is_in q (insert_subscription s subs) ≡ (same_subscription s q || is_in q subs)
unfolding insert_subscription
is_in-insert_subscription q s subs = ground (arith, is_in-same s q subs, is_in-append q s subs)

pub is_in-erase_subscription :
    (q s : Subscription TradablePair) (subs : List (Subscription TradablePair))
    → is_in q (erase_subscription s subs) ≡ (not (same_subscription s q) && is_in q subs)
unfolding erase_subscription is_in
is_in-erase_subscription q s [] = ground arith
is_in-erase_subscription q s (x ∷ xs) = ground (
  arith,
  is_in-erase_subscription q s xs,
  same_subscription_sym x s,
  same_subscription_trans s x q,
  same_subscription_sym s q,
  same_subscription_trans x q s,
)

abbrev any_asks :
    Subscription (List TradablePair) → List TradablePair → Subscription TradablePair → Bool
any_asks s [] q = false
any_asks s (pair ∷ pairs) q = same_subscription (one_of s pair) q || any_asks s pairs q

-- Whether one of the pairs of a subscription makes it ask for `q`.
abbrev pub asks_for : Subscription (List TradablePair) → Subscription TradablePair → Bool
asks_for s q = any_asks s s.pair_item q

abbrev Change : Type 0
Change =
    Subscription TradablePair → List (Subscription TradablePair) → List (Subscription TradablePair)

abbrev changed :
    Change
    → Subscription (List TradablePair)
    → List TradablePair
    → List (Subscription TradablePair)
    → List (Subscription TradablePair)
changed change s [] subs = subs
changed change s (pair ∷ pairs) subs = changed change s pairs (change (one_of s pair) subs)

is_in-inserted :
    (s : Subscription (List TradablePair)) (pairs : List TradablePair)
    (q : Subscription TradablePair) (subs : List (Subscription TradablePair))
    → is_in q (changed insert_subscription s pairs subs) ≡ (any_asks s pairs q || is_in q subs)
is_in-inserted s [] q subs = refl
is_in-inserted s (pair ∷ pairs) q subs = ground (
  arith,
  is_in-inserted s pairs q (insert_subscription (one_of s pair) subs),
  is_in-insert_subscription q (one_of s pair) subs,
)

is_in-erased :
    (s : Subscription (List TradablePair)) (pairs : List TradablePair)
    (q : Subscription TradablePair) (subs : List (Subscription TradablePair))
    → is_in q (changed erase_subscription s pairs subs) ≡ (not (any_asks s pairs q) && is_in q subs)
is_in-erased s [] q subs = refl
is_in-erased s (pair ∷ pairs) q subs = ground (
  arith,
  is_in-erased s pairs q (erase_subscription (one_of s pair) subs),
  is_in-erase_subscription q (one_of s pair) subs,
)

abbrev pub status_of : Bool → SubscriptionStatus
status_of b = if b then subscribed else unsubscribed

module _ {W S : Type 0} where
  -- The call returns that answer.
  abbrev pub Tells : SubscriptionStatus → Run (BackTestWorld W S) SubscriptionStatus → Type 0
  Tells x (returns y t) = y ≡ x
  Tells x (throws e t) = ⊥
  Tells x undefined = ⊥

  Tells-changed :
      (change : Change) (s : Subscription (List TradablePair)) (pairs : List TradablePair)
      (q : Subscription TradablePair) (w : BackTestWorld W S)
      → has_hash_of s.channel s.parameter ≡ true
      → has_hash q ≡ true
      → Tells (status_of (is_in q (changed change s pairs w.subscriptions))) (
          and_then
            (run_each (λ pair. change_set change (one_of s pair)) pairs w)
            λ u t. get_subscription_status q t)
  unfolding run_each get_subscription_status
  Tells-changed change s [] q w h k =
      subst
        (λ b. Tells (status_of (is_in q w.subscriptions)) (
          if b
          then returns (status_of (is_in q w.subscriptions)) w
          else throws bad_variant_access w))
        (sym k) refl
  Tells-changed change s (pair ∷ pairs) q w h k =
      let next : BackTestWorld W S = record w {
        subscriptions = change (one_of s pair) w.subscriptions;
      } in
      subst
        (λ b. Tells (status_of (is_in q (changed change s pairs next.subscriptions))) (
          and_then
            (and_then (if b then returns tt next else throws bad_variant_access w)
              λ u t. run_each (λ pair. change_set change (one_of s pair)) pairs t)
            λ u t. get_subscription_status q t))
        (sym h) (Tells-changed change s pairs q next h k)

  -- After `subscribe`, which returns, the stream tells of a subscription that it is subscribed exactly when
  -- one of the pairs asked for it or it was subscribed before; both have an interval where they are of candles.
  pub subscribe-status :
      (s : Subscription (List TradablePair)) (q : Subscription TradablePair) (w : BackTestWorld W S)
      → has_hash_of s.channel s.parameter ≡ true
      → has_hash q ≡ true
      → Tells
          (status_of (asks_for s q || is_in q w.subscriptions))
          (and_then (subscribe s w) λ u t. get_subscription_status q t)
  unfolding subscribe
  subscribe-status s q w h k =
      subst (λ b. Tells (status_of b) (and_then (subscribe s w) λ u t. get_subscription_status q t))
        (is_in-inserted s s.pair_item q w.subscriptions)
        (Tells-changed insert_subscription s s.pair_item q w h k)

  -- After `unsubscribe`, which returns, the stream tells of a subscription that it is subscribed exactly when
  -- it was subscribed before and none of the pairs asked for it; both have an interval where they are of candles.
  pub unsubscribe-status :
      (s : Subscription (List TradablePair)) (q : Subscription TradablePair) (w : BackTestWorld W S)
      → has_hash_of s.channel s.parameter ≡ true
      → has_hash q ≡ true
      → Tells
          (status_of (not (asks_for s q) && is_in q w.subscriptions))
          (and_then (unsubscribe s w) λ u t. get_subscription_status q t)
  unfolding unsubscribe
  unsubscribe-status s q w h k =
      subst
        (λ b. Tells (status_of b) (and_then (unsubscribe s w) λ u t. get_subscription_status q t))
        (is_in-erased s s.pair_item q w.subscriptions)
        (Tells-changed erase_subscription s s.pair_item q w h k)
