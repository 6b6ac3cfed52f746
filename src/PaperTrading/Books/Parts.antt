-- ===== src/PaperTrading/Books/Parts.antt =====
-- Consistent books, and the changes of single fields that keep them so.
use mathlib.Core.Path.{subst}
use mathlib.Core.List.{map-append}
use mathlib.Core.Option.{some-injective}
use native.Mathlib.Nat.{le_refl}
use marketblocks.Prelude.{
  ℕ, Bytes, true, false, some, none, List, [], ◌∷◌, ◌++◌, ◌≤◌, ◌≡◌, ◌≢◌, inl, inr, refl, sym, ap,
  ◌∙◌, arith, ◌==◌, bytes_equality, Map, map, lookup, lookup_or, erase, emplace, get_elem?,
  erase_at, elem, Distinct, beq-ne, elem-append, elem-erase_at, Distinct-append, lookup-erase,
  lookup-emplace, lookup_or-insert_or_assign, lookup_or-emplace_default, Bool-cases,
}
use marketblocks.Common.Text.{to_string, to_string_inj}
use marketblocks.Trading.Pair.{TradablePair, pair_equality}
use marketblocks.Trading.Order.{OrderRequest, OrderDescription}
use marketblocks.PaperTrading.State.{PaperTradeApi}
use marketblocks.PaperTrading.Handler.{ids_of, set_ids, drop_id}
use marketblocks.PaperTrading.Books.ByPair.{with_id, elem-with_id_self, elem-with_id}
use marketblocks.PaperTrading.Api.{enter_order}

module _ {W : Type 0} where
  abbrev pub closed_ids : List (OrderDescription W) → List Bytes
  closed_ids = map λ c. c.order_id

  pub record IsConsistent (a : PaperTradeApi W) : Type 0 where
    -- The numbers from the next one on name no order, no trailing limit and no closed order.
    pub fresh : (n : ℕ) → a.next_order_number ≤ n → lookup (to_string n) a.open_orders ≡ none
    pub unlimited :
        (n : ℕ) → a.next_order_number ≤ n → lookup (to_string n) a.trailing_order_limits ≡ none
    pub numbered :
        (n : ℕ) → a.next_order_number ≤ n → elem (to_string n) (closed_ids a.closed_orders) ≡ false
    -- Every open order stands in the list of its pair, so that an update of the pair reaches it.
    pub listed :
        (id : Bytes) (r : OrderRequest W)
        → lookup id a.open_orders ≡ some r
        → elem id (lookup_or r.pair [] a.open_orders_by_pair) ≡ true
    -- A closed order is not open, and is closed once.
    pub done :
        (id : Bytes) → elem id (closed_ids a.closed_orders) ≡ true → lookup id a.open_orders ≡ none
    pub once : Distinct (closed_ids a.closed_orders)

  pub empty-IsConsistent :
      (fee : W) (balances : Map Bytes ℕ)
      → IsConsistent (record {
        fee = fee;
        trailing_order_limits = [];
        balances = balances;
        open_orders = [];
        open_orders_by_pair = [];
        closed_orders = [];
        next_order_number = 1;
      })
  unfolding lookup
  empty-IsConsistent fee balances = record {
    fresh = λ n h. refl;
    unlimited = λ n h. refl;
    numbered = λ n h. refl;
    listed = λ id r h. cc;
    done = λ id h. cc;
    once = tt;
  }

  -- An order that leaves the open orders, and its trailing limit with it or not.
  pub erase-IsConsistent :
      (a : PaperTradeApi W) (id : Bytes)
      → IsConsistent a
      → IsConsistent (record a { open_orders = erase id a.open_orders })
  erase-IsConsistent a id v = record {
    fresh = λ n h. ground (arith, lookup-erase id (to_string n) a.open_orders, v.fresh n h);
    unlimited = v.unlimited;
    numbered = v.numbered;
    listed = λ j r h. v.listed j r (ground (arith, lookup-erase id j a.open_orders));
    done = λ j h. ground (arith, lookup-erase id j a.open_orders, v.done j h);
    once = v.once;
  }

  pub limits-IsConsistent :
      (a : PaperTradeApi W) (id : Bytes) (r : OrderRequest W) (limits : Map Bytes W)
      → IsConsistent a
      → lookup id a.open_orders ≡ some r
      → ((j : Bytes) → (id == j) ≡ false → lookup j limits ≡ lookup j a.trailing_order_limits)
      → IsConsistent (record a { trailing_order_limits = limits })
  limits-IsConsistent a id r limits v held others = record {
    fresh = v.fresh;
    unlimited = λ n h.
        let other : id ≢ to_string n =
          λ p. ground (arith, v.fresh n h, ap (λ j. lookup j a.open_orders) p) in
        others (to_string n) (beq-ne id (to_string n) other) ∙ v.unlimited n h;
    numbered = v.numbered;
    listed = v.listed;
    done = v.done;
    once = v.once;
  }

  -- The record of a fill, once its order has left the open orders.
  pub close-IsConsistent :
      (a : PaperTradeApi W) (c : OrderDescription W) (balances : Map Bytes ℕ) (r : OrderRequest W)
      → IsConsistent a
      → lookup c.order_id a.open_orders ≡ some r
      → IsConsistent (record a {
        balances = balances;
        open_orders = erase c.order_id a.open_orders;
        closed_orders = a.closed_orders ++ (c ∷ []);
      })
  close-IsConsistent a c balances r v held =
      let ids = closed_ids a.closed_orders in
      let v' = erase-IsConsistent a c.order_id v in
      let split = map-append (λ (c : OrderDescription W). c.order_id) a.closed_orders (c ∷ []) in
      let new : elem c.order_id ids ≡ false = ground (arith, v.done c.order_id) in
      record {
        fresh = v'.fresh;
        unlimited = v.unlimited;
        numbered = λ n h.
            let other : c.order_id ≢ to_string n =
              λ p. ground (arith, v.fresh n h, ap (λ j. lookup j a.open_orders) p) in
            rw split (
              ground (
                arith,
                elem-append (to_string n) ids (c.order_id ∷ []),
                v.numbered n h,
                beq-ne c.order_id (to_string n) other,
              ));
        listed = v'.listed;
        done = λ id h.
            let either = rw split at h in
            ground (
              arith,
              elem-append id ids (c.order_id ∷ []),
              lookup-erase c.order_id id a.open_orders,
              v.done id,
              either,
            );
        once = rw split (Distinct-append ids c.order_id new v.once);
      }

  -- An id that is not open may leave the list of its pair.
  pub drop_id-IsConsistent :
      (a : PaperTradeApi W) (pair : TradablePair) (i : ℕ) (k : Bytes)
      → IsConsistent a
      → get_elem? (ids_of pair a) i ≡ some k
      → lookup k a.open_orders ≡ none
      → IsConsistent (drop_id pair i a)
  unfolding drop_id set_ids ids_of
  drop_id-IsConsistent a pair i k v at gone = record {
    fresh = v.fresh;
    unlimited = v.unlimited;
    numbered = v.numbered;
    listed = λ id r h.
        let ids = ids_of pair a in
        let kept =
          lookup_or-insert_or_assign pair r.pair [] (erase_at ids i) a.open_orders_by_pair in
        elim (Bool-cases (pair == r.pair)) [
          | inl same ↦
              let here : elem id ids ≡ true =
                subst (λ q. elem id (lookup_or q [] a.open_orders_by_pair) ≡ true)
                  (sym ((pair_equality.beq_iff pair r.pair).0 same)) (v.listed id r h) in
              let other : k ≢ id =
                λ p. ground (arith, gone, h, ap (λ j. lookup j a.open_orders) p) in
              rw (kept, same) (elem-erase_at id k i ids at (beq-ne k id other) here)
          | inr differ ↦ rw (kept, differ) (v.listed id r h)
        ];
    done = v.done;
    once = v.once;
  }

  pub emplace-IsConsistent :
      (a : PaperTradeApi W) (pair : TradablePair)
      → IsConsistent a
      → IsConsistent (record a { open_orders_by_pair = emplace pair [] a.open_orders_by_pair })
  emplace-IsConsistent a pair v = record {
    fresh = v.fresh;
    unlimited = v.unlimited;
    numbered = v.numbered;
    listed = λ id r h.
        rw (lookup_or-emplace_default pair r.pair [] a.open_orders_by_pair) (v.listed id r h);
    done = v.done;
    once = v.once;
  }

  pub enter_order-IsConsistent :
      (r : OrderRequest W) (a : PaperTradeApi W) → IsConsistent a → IsConsistent (enter_order r a)
  unfolding enter_order
  enter_order-IsConsistent r a v =
      let id = to_string a.next_order_number in
      let books = a.open_orders_by_pair in
      let entered = λ (j : Bytes).
        lookup-emplace id j r a.open_orders (v.fresh a.next_order_number (le_refl _)) in
      record {
        fresh = λ n h.
            let other : id ≢ to_string n =
              λ p. omega (arith, to_string_inj a.next_order_number n p) in
            rw (entered (to_string n), beq-ne id (to_string n) other) (v.fresh n (omega arith));
        unlimited = λ n h. v.unlimited n (omega arith);
        numbered = λ n h. v.numbered n (omega arith);
        listed = λ j q h.
            let found = rw (entered j) at h in
            elim (Bool-cases (id == j)) [
              | inl new ↦
                  let one : r ≡ q = some-injective _ _ (rw new at found) in
                  subst (λ x. elem x (lookup_or q.pair [] (with_id r.pair id books)) ≡ true)
                    ((bytes_equality.beq_iff id j).0 new)
                    (subst (λ x. elem id (lookup_or x.pair [] (with_id r.pair id books)) ≡ true) one
                      (elem-with_id_self r.pair id books))
              | inr old ↦ elem-with_id r.pair q.pair id j books (v.listed j q (rw old at found))
            ];
        done = λ j h. ground (
          arith,
          entered j,
          v.done j h,
          v.numbered a.next_order_number (le_refl _),
          bytes_equality.beq_iff id j,
        );
        once = v.once;
      }
