-- ===== src/PaperTrading/Books/Sweep.antt =====
-- What the loop of `trade_update_handler` gets done: where it returns, no order that is due is left open.
use mathlib.Core.Path.{subst}
use mathlib.Core.Option.{some-injective}
use marketblocks.Prelude.{
  ℕ, ℤ, zero, suc, Bytes, Bool, true, false, some, [], ◌+◌, ◌<◌, ◌≡◌, inl, inr, refl, sym, ap, ◌∙◌,
  arith, bytes_equality, eqb, eqb_iff, erase, emplace, lookup, length, get_elem?, erase_at,
  get_elem?-some, length-erase_at, elem, lookup-erase, lookup_or, beq_refl, Option-cases,
  Bool-cases, contains_key_iff, contains_key-some, lookup_or-insert_or_assign,
}
use marketblocks.Double.{Double, zero_double}
use marketblocks.Common.Run.{Run, returns, throws, undefined, and_then, Leaves}
use marketblocks.Trading.Pair.{TradablePair, pair_equality}
use marketblocks.Trading.Order.{OrderRequest}
use marketblocks.Websockets.Stream.{WebsocketStream}
use marketblocks.PaperTrading.State.{PaperTradeApi}
use marketblocks.PaperTrading.Fill.{try_fill_order}
use marketblocks.PaperTrading.Fill.Attempt.{Tried, try_fill_order-Tried, try_fill_order-fill_at}
use marketblocks.PaperTrading.Handler.{
  ids_of, set_ids, drop_id, after_fill, handle_order, handle_round, handle_rounds,
  trade_update_handler,
}
use marketblocks.PaperTrading.Books.Parts.{IsConsistent}
use marketblocks.PaperTrading.Books.Rounds.{trade_update_handler-IsConsistent, handle_round-eq}
use marketblocks.PaperTrading.Books.Due.{
  get_elem?-erase_at_before, elem-position, is_due, fill_at-false,
}

module _ {W : Type 0} ⦃d : Double W⦄ where
  -- Of the ids before a position no order of the pair is due.
  abbrev IsSwept : W → TradablePair → ℕ → PaperTradeApi W → Type 0
  IsSwept price pair i a =
      (j : ℕ) (id : Bytes) (r : OrderRequest W)
      → j < i
      → get_elem? (ids_of pair a) j ≡ some id
      → lookup id a.open_orders ≡ some r
      → r.pair ≡ pair
      → is_due r price ≡ false

  -- Fewer open orders, and fewer ids behind the position.
  IsSwept-fewer :
      (price : W) (pair : TradablePair) (i : ℕ) (a b : PaperTradeApi W)
      → ((id : Bytes) (r : OrderRequest W)
          → lookup id b.open_orders ≡ some r
          → lookup id a.open_orders ≡ some r)
      → ((j : ℕ) → j < i → get_elem? (ids_of pair b) j ≡ get_elem? (ids_of pair a) j)
      → IsSwept price pair i a
      → IsSwept price pair i b
  IsSwept-fewer price pair i a b fewer same swept j id r room at held here =
      swept j id r room (sym (same j room) ∙ at) (fewer id r held) here

  IsSwept-next :
      (price : W) (pair : TradablePair) (i : ℕ) (id : Bytes) (r : OrderRequest W)
      (a : PaperTradeApi W)
      → IsSwept price pair i a
      → get_elem? (ids_of pair a) i ≡ some id
      → lookup id a.open_orders ≡ some r
      → (r.pair ≡ pair → is_due r price ≡ false)
      → IsSwept price pair (i + 1) a
  IsSwept-next price pair i id r a swept at held passed j k q room at' held' here =
      elim (Bool-cases (eqb j i)) [
        | inl same ↦
            let e = (eqb_iff j i).0 same in
            let one : id ≡ k =
              some-injective _ _ (sym at ∙ ap (get_elem? (ids_of pair a)) (sym e) ∙ at') in
            let order : r ≡ q =
              some-injective _ _ (sym held ∙ ap (λ x. lookup x a.open_orders) one ∙ held') in
            ap (λ x. is_due x price) (sym order)
            ∙ passed (ap (λ (x : OrderRequest W). x.pair) order ∙ here)
        | inr differ ↦ swept j k q (ground (arith, eqb_iff j i)) at' held' here
      ]

module _ {W : Type 0} where
  ids_of-drop_id :
      (a : PaperTradeApi W) (pair : TradablePair) (i : ℕ)
      → ids_of pair (drop_id pair i a) ≡ erase_at (ids_of pair a) i
  unfolding drop_id set_ids ids_of
  ids_of-drop_id a pair i =
      rw
        (
          lookup_or-insert_or_assign pair pair [] (erase_at (ids_of pair a) i)
              a.open_orders_by_pair,
          beq_refl pair,
        )
        refl

  open-drop_id :
      (a : PaperTradeApi W) (pair : TradablePair) (i : ℕ)
      → (drop_id pair i a).open_orders ≡ a.open_orders
  unfolding drop_id set_ids
  open-drop_id a pair i = refl

module _ {W : Type 0} ⦃d : Double W⦄ where
  -- After a round the orders before the next position are swept, and `n` ids are left.
  abbrev Sweeps : W → ℕ → TradablePair → Run (PaperTradeApi W) ℕ → Type 0
  Sweeps price n pair (returns i a) = IsSwept price pair i a × (length (ids_of pair a) ≡ i + n)
  Sweeps price n pair _ = Unit

  -- The id at the position leaves the list, and with it perhaps an order.
  drop-Sweeps :
      (price : W) (pair : TradablePair) (i n : ℕ) (a b : PaperTradeApi W)
      → IsSwept price pair i a
      → length (ids_of pair a) ≡ i + suc n
      → ids_of pair b ≡ ids_of pair a
      → ((id : Bytes) (r : OrderRequest W)
          → lookup id b.open_orders ≡ some r
          → lookup id a.open_orders ≡ some r)
      → Sweeps price n pair (returns i (drop_id pair i b))
  drop-Sweeps price pair i n a b swept room same fewer =
      let ids = ids_of-drop_id b pair i in
      (
        IsSwept-fewer price pair i a (drop_id pair i b)
            (λ id r held. fewer id r (rw (open-drop_id b pair i) at held))
            (λ j before. rw (ids, same) (get_elem?-erase_at_before (ids_of pair a) i j before))
            swept,
        rw (ids, same) (omega (arith, length-erase_at (ids_of pair a) i (omega arith))),
      )

  -- The order at the position stays, and is not due.
  stay-Sweeps :
      (price : W) (pair : TradablePair) (i n : ℕ) (id : Bytes) (r : OrderRequest W)
      (a b : PaperTradeApi W)
      → IsSwept price pair i a
      → length (ids_of pair a) ≡ i + suc n
      → ids_of pair b ≡ ids_of pair a
      → b.open_orders ≡ a.open_orders
      → get_elem? (ids_of pair a) i ≡ some id
      → lookup id a.open_orders ≡ some r
      → (r.pair ≡ pair → is_due r price ≡ false)
      → Sweeps price n pair (returns (i + 1) b)
  stay-Sweeps price pair i n id r a b swept room same orders at held passed = (
    IsSwept-fewer price pair (i + 1) a b (λ j q kept. ap (lookup j) (sym orders) ∙ kept)
        (λ j before. ap (λ ids. get_elem? ids j) same)
        (IsSwept-next price pair i id r a swept at held passed),
    rw same (omega (arith, room)),
  )

  after_fill-Sweeps :
      (now : ℤ) (price tried_at : W) (pair : TradablePair) (i n : ℕ) (id : Bytes)
      (r : OrderRequest W) (a : PaperTradeApi W) (m : Run (PaperTradeApi W) Bool)
      → IsSwept price pair i a
      → length (ids_of pair a) ≡ i + suc n
      → get_elem? (ids_of pair a) i ≡ some id
      → lookup id a.open_orders ≡ some r
      → Tried now id r tried_at a m
      → ((b : PaperTradeApi W) → m ≡ returns false b → r.pair ≡ pair → is_due r price ≡ false)
      → Sweeps price n pair (and_then m (after_fill pair i))
  unfolding after_fill ids_of
  after_fill-Sweeps now price tried_at pair i n id r a (returns true b) swept room at held
        (p, (same, fair, nonzero, others)) passed =
      drop-Sweeps price pair i n a b swept room (ap (λ (x : PaperTradeApi W). ids_of pair x) same)
        (λ j q kept.
          let orders : lookup j b.open_orders ≡ lookup j (erase id a.open_orders) =
            ap (λ (x : PaperTradeApi W). lookup j x.open_orders) same in
          ground (arith, lookup-erase id j a.open_orders, orders))
  after_fill-Sweeps now price tried_at pair i n id r a (returns false b) swept room at held
        (same, others) passed =
      stay-Sweeps price pair i n id r a b swept room
        (ap (λ (x : PaperTradeApi W). ids_of pair x) same)
        (ap (λ (x : PaperTradeApi W). x.open_orders) same) at held (passed b refl)
  after_fill-Sweeps now price tried_at pair i n id r a (throws e b) swept room at held tried
        passed =
      _
  after_fill-Sweeps now price tried_at pair i n id r a undefined swept room at held tried passed = _

module _ {W S : Type 0} ⦃d : Double W⦄ (stream : WebsocketStream S W) (s : S) (now : ℤ)
    (pair : TradablePair) where
  -- The price of the last trade of the pair.
  abbrev price_now : W
  price_now = (stream.get_last_trade s pair).price

  try_fill_order-false :
      (id : Bytes) (r : OrderRequest W) (a a' : PaperTradeApi W)
      → lookup id a.open_orders ≡ some r
      → d.eq (stream.get_last_trade s r.pair).price zero_double ≡ false
      → try_fill_order stream s now id a ≡ returns false a'
      → is_due r (stream.get_last_trade s r.pair).price ≡ false
  try_fill_order-false id r a a' held nonzero h =
      fill_at-false now id r (stream.get_last_trade s r.pair).price a a' nonzero
        (sym (try_fill_order-fill_at stream s now id a r held) ∙ h)

  handle_order-Sweeps :
      (n i : ℕ) (id : Bytes) (a : PaperTradeApi W)
      → d.eq price_now zero_double ≡ false
      → IsSwept price_now pair i a
      → length (ids_of pair a) ≡ i + suc n
      → get_elem? (ids_of pair a) i ≡ some id
      → Sweeps price_now n pair (handle_order stream s now pair id i a)
  unfolding handle_order
  handle_order-Sweeps n i id a nonzero swept room at =
      elim (Option-cases (lookup id a.open_orders)) [
        | inl closed ↦
            rw ((contains_key_iff id a.open_orders).1 closed)
              (drop-Sweeps price_now pair i n a a swept room refl (λ j q held. held))
        | inr (r, held) ↦ rw (contains_key-some id r a.open_orders held) (
            after_fill-Sweeps now price_now (stream.get_last_trade s r.pair).price pair i n id r a
              (try_fill_order stream s now id a) swept room at held
              (try_fill_order-Tried stream s now id a r held)
              λ b h here.
                subst (λ q. is_due r (stream.get_last_trade s q).price ≡ false) here
                  (try_fill_order-false id r a b held
                    (subst (λ q. d.eq (stream.get_last_trade s q).price zero_double ≡ false)
                      (sym here) nonzero)
                    h))
      ]

  handle_round-Sweeps :
      (n i : ℕ) (a : PaperTradeApi W)
      → d.eq price_now zero_double ≡ false
      → IsSwept price_now pair i a
      → length (ids_of pair a) ≡ i + suc n
      → Sweeps price_now n pair (handle_round stream s now pair i a)
  handle_round-Sweeps n i a nonzero swept room =
      let (id, at) = get_elem?-some (ids_of pair a) i (omega (arith, room)) in
      rw (handle_round-eq stream s now pair i id a at)
        (handle_order-Sweeps n i id a nonzero swept room at)

  -- All ids of the list are swept.
  abbrev AllSwept : Run (PaperTradeApi W) (Unit {0}) → Type 0
  AllSwept (returns u a) = IsSwept price_now pair (length (ids_of pair a)) a
  AllSwept _ = Unit

  later_rounds :
      (n : ℕ) (m : Run (PaperTradeApi W) ℕ)
      → ((i : ℕ) (a : PaperTradeApi W)
          → IsSwept price_now pair i a
          → length (ids_of pair a) ≡ i + n
          → AllSwept (handle_rounds stream s now n pair i a))
      → Sweeps price_now n pair m
      → AllSwept (elim m [
        | returns j b ↦ handle_rounds stream s now n pair j b
        | throws e b ↦ throws e b
        | undefined ↦ undefined
      ])
  later_rounds n (returns j b) rest (swept, room) = rest j b swept room
  later_rounds n (throws e b) rest h = _
  later_rounds n undefined rest h = _

  handle_rounds-AllSwept :
      (n i : ℕ) (a : PaperTradeApi W)
      → d.eq price_now zero_double ≡ false
      → IsSwept price_now pair i a
      → length (ids_of pair a) ≡ i + n
      → AllSwept (handle_rounds stream s now n pair i a)
  unfolding handle_rounds
  handle_rounds-AllSwept zero i a nonzero swept room =
      subst (λ k. IsSwept price_now pair k a) (omega (arith, room)) swept
  handle_rounds-AllSwept (suc n) i a nonzero swept room =
      later_rounds n (handle_round stream s now pair i a)
        (λ j b swept' room'. handle_rounds-AllSwept n j b nonzero swept' room')
        (handle_round-Sweeps n i a nonzero swept room)

  listed_here :
      (a : PaperTradeApi W) (id : Bytes) (r : OrderRequest W)
      → IsConsistent a
      → lookup id a.open_orders ≡ some r
      → r.pair ≡ pair
      → elem id (ids_of pair a) ≡ true
  unfolding ids_of
  listed_here a id r v held here =
      subst (λ q. elem id (lookup_or q [] a.open_orders_by_pair) ≡ true) here (v.listed id r held)

  -- Where `trade_update_handler` returns on consistent books, and the last trade of the pair has a price that
  -- is not zero, no order of the pair is left open that is due at this price: no market order, no limit order
  -- whose price is reached, and no stop order whose stop is reached.
  pub trade_update_handler-sweeps :
      (a a' : PaperTradeApi W) (id : Bytes) (r : OrderRequest W)
      → IsConsistent a
      → d.eq price_now zero_double ≡ false
      → trade_update_handler stream s now pair a ≡ returns tt a'
      → lookup id a'.open_orders ≡ some r
      → r.pair ≡ pair
      → is_due r price_now ≡ false
  unfolding trade_update_handler
  trade_update_handler-sweeps a a' id r v nonzero done held here =
      let b : PaperTradeApi W = record a {
        open_orders_by_pair = emplace pair [] a.open_orders_by_pair;
      } in
      let all : AllSwept (returns tt a') = subst AllSwept done (
        handle_rounds-AllSwept (length (ids_of pair b)) 0 b nonzero
          (λ j id r before. absurd (omega arith)) (omega arith)) in
      let v' : IsConsistent a' =
        subst (Leaves IsConsistent) done
          (trade_update_handler-IsConsistent stream s now pair a v) in
      let (j, before, at) = elem-position id (ids_of pair a') (listed_here a' id r v' held here) in
      all j id r before at held here
