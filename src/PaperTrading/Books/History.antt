-- ===== src/PaperTrading/Books/History.antt =====
-- Consistent books over whole histories of calls, and what becomes of an order that is added.
use native.Mathlib.Nat.{le_refl}
use marketblocks.Prelude.{
  ℤ, Bytes, Bool, true, false, some, none, List, [], ◌∷◌, ◌≡◌, inl, inr, refl, ◌∙◌, bytes_equality,
  Map, lookup, erase, lookup-emplace, beq_refl, Option-cases,
}
use marketblocks.Double.{Double}
use marketblocks.Common.Text.{to_string}
use marketblocks.Common.Run.{
  Run, returns, throws, undefined, Leaves, order_not_found, and_then-Leaves, after,
}
use marketblocks.Trading.Order.{OrderRequest}
use marketblocks.Websockets.Stream.{WebsocketStream}
use marketblocks.PaperTrading.State.{PaperTradeApi, new_paper_trade_api}
use marketblocks.PaperTrading.Fill.{try_fill_order}
use marketblocks.PaperTrading.Api.{
  World, on_feed, enter_order, cancel_order, subscribe_trades, add_order, add_order_confirm, Call,
  adds, confirms, cancels, updates, feeds, step, run,
}
use marketblocks.PaperTrading.Books.Parts.{
  IsConsistent, empty-IsConsistent, erase-IsConsistent, enter_order-IsConsistent,
}
use marketblocks.PaperTrading.Books.Rounds.{
  Kept, try_fill_order-Kept, trade_update_handler-IsConsistent,
}

module _ {W : Type 0} where
  pub enter_order-held :
      (r : OrderRequest W) (a : PaperTradeApi W)
      → IsConsistent a
      → lookup (to_string a.next_order_number) (enter_order r a).open_orders ≡ some r
  unfolding enter_order
  enter_order-held r a v =
      let id = to_string a.next_order_number in
      lookup-emplace id id r a.open_orders (v.fresh a.next_order_number (le_refl _))
      ∙ rw (beq_refl id) refl

  cancel_order-none :
      (id : Bytes) (a : PaperTradeApi W)
      → lookup id a.open_orders ≡ none
      → cancel_order id a ≡ throws (order_not_found id) a
  unfolding cancel_order
  cancel_order-none id a e = rw (e, cancel_order)

  cancel_order-some :
      (id : Bytes) (a : PaperTradeApi W) (r : OrderRequest W)
      → lookup id a.open_orders ≡ some r
      → cancel_order id a ≡ returns tt (record a { open_orders = erase id a.open_orders })
  unfolding cancel_order
  cancel_order-some id a r e = rw (e, cancel_order)

  cancel_order-IsConsistent :
      (id : Bytes) (a : PaperTradeApi W) → IsConsistent a → Leaves IsConsistent (cancel_order id a)
  cancel_order-IsConsistent id a v = elim (Option-cases (lookup id a.open_orders)) [
    | inl e ↦ rw (cancel_order-none id a e) v
    | inr (r, e) ↦ rw (cancel_order-some id a r e) (erase-IsConsistent a id v)
  ]

  Kept-Leaves :
      (id : Bytes) (a : PaperTradeApi W) (m : Run (PaperTradeApi W) Bool)
      → Kept id a m
      → Leaves IsConsistent m
  Kept-Leaves id a (returns true a') h = h.0
  Kept-Leaves id a (returns false a') h = h.0
  Kept-Leaves id a (throws e a') h = h.0
  Kept-Leaves id a undefined h = h

module _ {W S : Type 0} where
  -- A call on the account is a call on the world.
  on_feed-Leaves :
      {A : Type 0} (s : S) (P : PaperTradeApi W → Type 0) (m : Run (PaperTradeApi W) A)
      → Leaves P m
      → Leaves (λ (w : World W S). P w.api) (on_feed s m)
  on_feed-Leaves s P (returns x a) h = h
  on_feed-Leaves s P (throws e a) h = h
  on_feed-Leaves s P undefined h = h

  after-Leaves :
      {A : Type 0} (P : World W S → Type 0) (w : World W S) (m : Run (World W S) A)
      → Leaves P m
      → P (after w m)
  after-Leaves P w (returns x w') h = h
  after-Leaves P w (throws e w') h = h
  after-Leaves P w undefined h = absurd h

-- The account of a world has consistent books.
abbrev pub HasBooks : {W S : Type 0} → World W S → Type 0
HasBooks w = IsConsistent w.api

module _ {W S : Type 0} ⦃d : Double W⦄ (stream : WebsocketStream S W) where
  add_order-HasBooks :
      (now : ℤ) (r : OrderRequest W) (w : World W S)
      → HasBooks w
      → Leaves HasBooks (add_order stream now r w)
  unfolding add_order
  add_order-HasBooks now r w v =
      let a = enter_order r w.api in
      let entered = enter_order-IsConsistent r w.api v in
      let s = (subscribe_trades stream r.pair w.feed).0 in
      let id = to_string w.api.next_order_number in
      elim (Option-cases (subscribe_trades stream r.pair w.feed).1) [
        | inl done ↦
            rw (Leaves, add_order, done)
              (on_feed-Leaves s IsConsistent _ (
                and_then-Leaves IsConsistent (try_fill_order stream s now id a) _ (λ x t h. h)
                  (Kept-Leaves id a _ (
                    try_fill_order-Kept stream s now id a r entered (enter_order-held r w.api v)))))
        | inr (e, thrown) ↦ rw (Leaves, add_order, thrown) entered
      ]

  step-HasBooks : (c : ℤ × Call W S) (w : World W S) → HasBooks w → HasBooks (step stream c w)
  unfolding step add_order_confirm
  step-HasBooks (now, adds r) w v = after-Leaves HasBooks w _ (add_order-HasBooks now r w v)
  step-HasBooks (now, confirms r) w v =
      after-Leaves HasBooks w _
        (and_then-Leaves HasBooks _ _ (λ x t h. h) (add_order-HasBooks now r w v))
  step-HasBooks (now, cancels id) w v =
      after-Leaves HasBooks w _
        (on_feed-Leaves w.feed IsConsistent _ (cancel_order-IsConsistent id w.api v))
  step-HasBooks (now, updates pair) w v = after-Leaves HasBooks w _ (
      on_feed-Leaves w.feed IsConsistent _
        (trade_update_handler-IsConsistent stream w.feed now pair w.api v))
  step-HasBooks (now, feeds s) w v = v

  run-HasBooks :
      (cs : List (ℤ × Call W S)) (w : World W S) → HasBooks w → HasBooks (run stream cs w)
  unfolding run
  run-HasBooks [] w v = v
  run-HasBooks (c ∷ cs) w v = run-HasBooks cs (step stream c w) (step-HasBooks c w v)

  -- After any history of calls on a new account, successful or not, the books are consistent: every
  -- open order is listed under its pair, no closed order is open or closed twice, and the numbers not
  -- yet given out name no order and no trailing limit.
  pub run-new-IsConsistent :
      (fee : W) (balances : Map Bytes W) (s : S) (cs : List (ℤ × Call W S))
      → IsConsistent
          (run stream cs (record { api = new_paper_trade_api fee balances; feed = s })).api
  unfolding new_paper_trade_api
  run-new-IsConsistent fee balances s cs = run-HasBooks cs _ (empty-IsConsistent fee _)
