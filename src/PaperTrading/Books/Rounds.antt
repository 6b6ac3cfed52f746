-- ===== src/PaperTrading/Books/Rounds.antt =====
-- The loop of `trade_update_handler` over consistent books: it stays inside the vector that it
-- erases from, and leaves the books consistent.
use mathlib.Core.Path.{subst}
use marketblocks.Prelude.{
  ℕ, ℤ, zero, suc, Bytes, Bool, true, false, some, none, [], ◌+◌, ◌≤◌, ◌≡◌, inl, inr, refl, sym, ap,
  ◌∙◌, arith, bytes_equality, lookup, length, get_elem?, erase_at, get_elem?-some, length-erase_at,
  lookup-erase, lookup_or, beq_refl, Option-cases, contains_key_iff, contains_key-some,
  lookup_or-insert_or_assign,
}
use marketblocks.Double.{Double}
use marketblocks.Common.Run.{Run, returns, throws, undefined, and_then, Leaves}
use marketblocks.Trading.Pair.{TradablePair, pair_equality}
use marketblocks.Trading.Order.{OrderRequest}
use marketblocks.Websockets.Stream.{WebsocketStream}
use marketblocks.PaperTrading.State.{PaperTradeApi, to_order_description}
use marketblocks.PaperTrading.Fill.{try_fill_order}
use marketblocks.PaperTrading.Fill.Attempt.{Tried, IsFilled, IsPending, try_fill_order-Tried}
use marketblocks.PaperTrading.Handler.{
  ids_of, set_ids, drop_id, after_fill, handle_order, handle_round, handle_rounds,
  trade_update_handler,
}
use marketblocks.PaperTrading.Books.Parts.{
  IsConsistent, limits-IsConsistent, close-IsConsistent, drop_id-IsConsistent, emplace-IsConsistent,
}

module _ {W : Type 0} where
  length-drop_id :
      (a : PaperTradeApi W) (pair : TradablePair) (i n : ℕ)
      → i + suc n ≤ length (ids_of pair a)
      → i + n ≤ length (ids_of pair (drop_id pair i a))
  unfolding drop_id set_ids ids_of
  length-drop_id a pair i n h =
      let ids = ids_of pair a in
      rw
        (
          lookup_or-insert_or_assign pair pair [] (erase_at ids i) a.open_orders_by_pair,
          beq_refl pair,
        )
        (omega (arith, length-erase_at ids i))

  abbrev pub SameLists : PaperTradeApi W → PaperTradeApi W → Type 0
  SameLists a a' = a'.open_orders_by_pair ≡ a.open_orders_by_pair

  -- After an attempt the books are consistent and the lists by pair as before; an order that is
  -- filled is not open.
  abbrev pub Kept : Bytes → PaperTradeApi W → Run (PaperTradeApi W) Bool → Type 0
  Kept id a (returns true a') = IsConsistent a' × SameLists a a' × (lookup id a'.open_orders ≡ none)
  Kept id a (returns false a') = IsConsistent a' × SameLists a a'
  Kept id a (throws e a') = IsConsistent a' × SameLists a a'
  Kept id a undefined = ⊥

module _ {W : Type 0} ⦃d : Double W⦄ where
  pending-IsConsistent :
      (a a' : PaperTradeApi W) (id : Bytes) (r : OrderRequest W)
      → IsConsistent a
      → lookup id a.open_orders ≡ some r
      → IsPending id a a'
      → IsConsistent a'
  pending-IsConsistent a a' id r v held (same, others) =
      subst IsConsistent (sym same)
        (limits-IsConsistent a id r a'.trailing_order_limits v held others)

  filled-IsConsistent :
      (now : ℤ) (price p : W) (a a' : PaperTradeApi W) (id : Bytes) (r : OrderRequest W)
      → IsConsistent a
      → lookup id a.open_orders ≡ some r
      → IsFilled now id r price a p a'
      → IsConsistent a'
  unfolding to_order_description
  filled-IsConsistent now price p a a' id r v held (same, fair, nonzero, others) =
      let b = record a { trailing_order_limits = a'.trailing_order_limits } in
      subst IsConsistent (sym same) (
        close-IsConsistent b (to_order_description id p now r) _ r
          (limits-IsConsistent a id r a'.trailing_order_limits v held others) held)

  ids_of-same :
      (pair : TradablePair) (a a' : PaperTradeApi W)
      → SameLists a a'
      → ids_of pair a' ≡ ids_of pair a
  unfolding ids_of
  ids_of-same pair a a' same = ap (lookup_or pair []) same

  Tried-Kept :
      (now : ℤ) (id : Bytes) (r : OrderRequest W) (price : W) (a : PaperTradeApi W)
      (m : Run (PaperTradeApi W) Bool)
      → IsConsistent a
      → lookup id a.open_orders ≡ some r
      → Tried now id r price a m
      → Kept id a m
  Tried-Kept now id r price a (returns true a') v held (p, filled) =
      let gone = lookup-erase id id a.open_orders in
      (
        filled-IsConsistent now price p a a' id r v held filled,
        ap (λ (x : PaperTradeApi W). x.open_orders_by_pair) filled.0,
        ap (λ (x : PaperTradeApi W). lookup id x.open_orders) filled.0
            ∙ gone
            ∙ rw (beq_refl id) refl,
      )
  Tried-Kept now id r price a (returns false a') v held pending = (
    pending-IsConsistent a a' id r v held pending,
    ap (λ (x : PaperTradeApi W). x.open_orders_by_pair) pending.0,
  )
  Tried-Kept now id r price a (throws e a') v held pending = (
    pending-IsConsistent a a' id r v held pending,
    ap (λ (x : PaperTradeApi W). x.open_orders_by_pair) pending.0,
  )
  Tried-Kept now id r price a undefined v held h = h

  pub try_fill_order-Kept :
      {S : Type 0} (stream : WebsocketStream S W) (s : S) (now : ℤ) (id : Bytes)
      (a : PaperTradeApi W) (r : OrderRequest W)
      → IsConsistent a
      → lookup id a.open_orders ≡ some r
      → Kept id a (try_fill_order stream s now id a)
  try_fill_order-Kept stream s now id a r v held =
      Tried-Kept now id r (stream.get_last_trade s r.pair).price a _ v held
        (try_fill_order-Tried stream s now id a r held)

  -- What a round leaves for the `n` rounds that follow: enough of the list.
  abbrev Continues : ℕ → TradablePair → Run (PaperTradeApi W) ℕ → Type 0
  Continues n pair (returns i a) = IsConsistent a × (i + n ≤ length (ids_of pair a))
  Continues n pair (throws e a) = IsConsistent a
  Continues n pair undefined = ⊥

  after_fill-Continues :
      (pair : TradablePair) (id : Bytes) (i n : ℕ) (a : PaperTradeApi W)
      (m : Run (PaperTradeApi W) Bool)
      → get_elem? (ids_of pair a) i ≡ some id
      → i + suc n ≤ length (ids_of pair a)
      → Kept id a m
      → Continues n pair (and_then m (after_fill pair i))
  unfolding after_fill
  after_fill-Continues pair id i n a (returns true a') at room (v, same, gone) =
      let e = ids_of-same pair a a' same in
      (drop_id-IsConsistent a' pair i id v (rw e at) gone, length-drop_id a' pair i n (rw e room))
  after_fill-Continues pair id i n a (returns false a') at room (v, same) =
      (v, rw (ids_of-same pair a a' same) (omega arith))
  after_fill-Continues pair id i n a (throws e a') at room (v, same) = v
  after_fill-Continues pair id i n a undefined at room h = h

  pub handle_round-eq :
      {S : Type 0} (stream : WebsocketStream S W) (s : S) (now : ℤ) (pair : TradablePair) (i : ℕ)
      (id : Bytes) (a : PaperTradeApi W)
      → get_elem? (ids_of pair a) i ≡ some id
      → handle_round stream s now pair i a ≡ handle_order stream s now pair id i a
  unfolding handle_round
  handle_round-eq stream s now pair i id a at = rw (at, handle_round)

  module _ {S : Type 0} (stream : WebsocketStream S W) (s : S) (now : ℤ) (pair : TradablePair) where
    handle_order-Continues :
        (id : Bytes) (i n : ℕ) (a : PaperTradeApi W)
        → IsConsistent a
        → get_elem? (ids_of pair a) i ≡ some id
        → i + suc n ≤ length (ids_of pair a)
        → Continues n pair (handle_order stream s now pair id i a)
    unfolding handle_order
    handle_order-Continues id i n a v at room = elim (Option-cases (lookup id a.open_orders)) [
      | inl closed ↦
          rw ((contains_key_iff id a.open_orders).1 closed)
            (drop_id-IsConsistent a pair i id v at closed, length-drop_id a pair i n room)
      | inr (r, held) ↦ rw (contains_key-some id r a.open_orders held) (
          after_fill-Continues pair id i n a (try_fill_order stream s now id a) at room
            (try_fill_order-Kept stream s now id a r v held))
    ]

    handle_round-Continues :
        (i n : ℕ) (a : PaperTradeApi W)
        → IsConsistent a
        → i + suc n ≤ length (ids_of pair a)
        → Continues n pair (handle_round stream s now pair i a)
    handle_round-Continues i n a v room =
        let (id, at) = get_elem?-some (ids_of pair a) i (omega arith) in
        rw (handle_round-eq stream s now pair i id a at) (handle_order-Continues id i n a v at room)

    -- The rounds from a position on do no harm, where the list is long enough for them.
    abbrev DoNoHarm : ℕ → Type 0
    DoNoHarm n =
        (i : ℕ) (a : PaperTradeApi W)
        → IsConsistent a
        → i + n ≤ length (ids_of pair a)
        → Leaves IsConsistent (handle_rounds stream s now n pair i a)

    after_round :
        (n : ℕ) (m : Run (PaperTradeApi W) ℕ)
        → DoNoHarm n
        → Continues n pair m
        → Leaves IsConsistent (elim m [
          | returns j b ↦ handle_rounds stream s now n pair j b
          | throws e b ↦ throws e b
          | undefined ↦ undefined
        ])
    after_round n (returns j b) rest (v, room) = rest j b v room
    after_round n (throws e b) rest v = v
    after_round n undefined rest h = h

    handle_rounds-DoNoHarm : (n : ℕ) → DoNoHarm n
    unfolding handle_rounds
    handle_rounds-DoNoHarm zero i a v room = v
    handle_rounds-DoNoHarm (suc n) i a v room =
        after_round n (handle_round stream s now pair i a) (handle_rounds-DoNoHarm n)
          (handle_round-Continues i n a v room)

    -- From consistent books the loop over the orders of a pair never reads past the end of the
    -- vector that it erases from, and the books are consistent after it, whether it returns or an
    -- order throws in the middle of it.
    pub trade_update_handler-IsConsistent :
        (a : PaperTradeApi W)
        → IsConsistent a
        → Leaves IsConsistent (trade_update_handler stream s now pair a)
    unfolding trade_update_handler
    trade_update_handler-IsConsistent a v =
        handle_rounds-DoNoHarm _ 0 _ (emplace-IsConsistent a pair v) (omega arith)
