-- ===== src/PaperTrading/Books/Adding.antt =====
-- What becomes of an order that is added.
use mathlib.Core.List.{map-append}
use native.Mathlib.Nat.{le_refl}
use marketblocks.Prelude.{
  ℤ, Bytes, Bool, true, false, some, none, [], ◌∷◌, ◌≡◌, ◌⊎◌, inl, inr, ap, ◌∙◌, arith,
  bytes_equality, lookup, elem, beq_refl, elem-append, Option-cases,
}
use marketblocks.Double.{Double}
use marketblocks.Common.Text.{to_string}
use marketblocks.Common.Run.{Run, returns, throws, undefined, and_then}
use marketblocks.Trading.Order.{OrderRequest, OrderDescription}
use marketblocks.Websockets.Stream.{WebsocketStream}
use marketblocks.PaperTrading.State.{PaperTradeApi, to_order_description}
use marketblocks.PaperTrading.Fill.{try_fill_order}
use marketblocks.PaperTrading.Fill.Attempt.{Tried, try_fill_order-Tried}
use marketblocks.PaperTrading.Api.{World, on_feed, enter_order, subscribe_trades, add_order}
use marketblocks.PaperTrading.Books.Parts.{IsConsistent, closed_ids}
use marketblocks.PaperTrading.Books.History.{HasBooks, enter_order-held}

module _ {W : Type 0} where
  -- The order is closed if the attempt returned true, and else open.
  abbrev Settles : Bytes → OrderRequest W → Run (PaperTradeApi W) Bool → Type 0
  Settles id r (returns true a) = elem id (closed_ids a.closed_orders) ≡ true
  Settles id r (returns false a) = lookup id a.open_orders ≡ some r
  Settles id r (throws e a) = lookup id a.open_orders ≡ some r
  Settles id r undefined = ⊥

module _ {W S : Type 0} where
  -- The id that `add_order` returns is one that no order had, and its order is now open or closed.
  -- Where it throws, the order is open under the id that the caller is not told.
  abbrev pub Added : OrderRequest W → World W S → Run (World W S) Bytes → Type 0
  Added r w (returns id w') =
      (lookup id w.api.open_orders ≡ none)
      × (elem id (closed_ids w.api.closed_orders) ≡ false)
      × ((lookup id w'.api.open_orders ≡ some r)
          ⊎ (elem id (closed_ids w'.api.closed_orders) ≡ true))
  Added r w (throws e w') = lookup (to_string w.api.next_order_number) w'.api.open_orders ≡ some r
  Added r w undefined = ⊥

  Settles-Added :
      (r : OrderRequest W) (w : World W S) (s : S) (m : Run (PaperTradeApi W) Bool)
      → HasBooks w
      → Settles (to_string w.api.next_order_number) r m
      → Added r w (on_feed s (and_then m λ filled a. returns (to_string w.api.next_order_number) a))
  Settles-Added r w s (returns true a) v h =
      (v.fresh _ (le_refl _), v.numbered _ (le_refl _), inr h)
  Settles-Added r w s (returns false a) v h =
      (v.fresh _ (le_refl _), v.numbered _ (le_refl _), inl h)
  Settles-Added r w s (throws e a) v h = h
  Settles-Added r w s undefined v h = h

module _ {W : Type 0} ⦃d : Double W⦄ where
  Tried-Settles :
      (now : ℤ) (id : Bytes) (r : OrderRequest W) (price : W) (a : PaperTradeApi W)
      (m : Run (PaperTradeApi W) Bool)
      → lookup id a.open_orders ≡ some r
      → Tried now id r price a m
      → Settles id r m
  unfolding to_order_description
  Tried-Settles now id r price a (returns true a') held (p, filled) =
      ap (λ (x : PaperTradeApi W). elem id (closed_ids x.closed_orders)) filled.0
      ∙ ap (elem id) (
          map-append (λ (c : OrderDescription W). c.order_id) a.closed_orders
            (to_order_description id p now r ∷ []))
      ∙ ground (arith, elem-append id (closed_ids a.closed_orders) (id ∷ []), beq_refl id)
  Tried-Settles now id r price a (returns false a') held (same, _) =
      ap (λ (x : PaperTradeApi W). lookup id x.open_orders) same ∙ held
  Tried-Settles now id r price a (throws e a') held (same, _) =
      ap (λ (x : PaperTradeApi W). lookup id x.open_orders) same ∙ held
  Tried-Settles now id r price a undefined held h = h

module _ {W S : Type 0} ⦃d : Double W⦄ where
  -- With consistent books, `add_order` returns an id that named no open or closed order, under which
  -- the order is then open or closed, or it throws and leaves the order open. It always ends.
  pub add_order-Added :
      (stream : WebsocketStream S W) (now : ℤ) (r : OrderRequest W) (w : World W S)
      → IsConsistent w.api
      → Added r w (add_order stream now r w)
  unfolding add_order
  add_order-Added stream now r w v =
      let a = enter_order r w.api in
      let s = (subscribe_trades stream r.pair w.feed).0 in
      let id = to_string w.api.next_order_number in
      let held = enter_order-held r w.api v in
      elim (Option-cases (subscribe_trades stream r.pair w.feed).1) [
        | inl done ↦
            rw (Added, add_order, done)
              (Settles-Added r w s (try_fill_order stream s now id a) v (
                Tried-Settles now id r (stream.get_last_trade s r.pair).price a _ held
                  (try_fill_order-Tried stream s now id a r held)))
        | inr (e, thrown) ↦ rw (Added, add_order, thrown) held
      ]
