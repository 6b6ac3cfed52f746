-- ===== src/PaperTrading/Settle/Balances.antt =====
-- The balances after a fill.
use marketblocks.Prelude.{
  ℕ, ℤ, Bytes, false, [], ◌∷◌, ◌++◌, ◌+◌, ◌-◌, ◌%◌, ◌<◌, ◌≤◌, ◌≡◌, ◌≢◌, ◌⊎◌, inl, inr, refl, sym,
  arith, ◌↔◌, le→leb, leb, bytes_equality, Equality, Map, lookup, lookup_or, some, none,
  insert_or_assign, erase, lookup-insert_or_assign, lookup_or-insert_or_assign, Option-cases,
  beq_refl, beq-ne,
}
use marketblocks.Double.{Double}
use marketblocks.Common.Run.{returns, throws, insufficient_funds}
use marketblocks.Trading.Order.{OrderRequest}
use marketblocks.PaperTrading.State.{
  PaperTradeApi, volume_mod, to_order_description, has_sufficient_funds,
}
use marketblocks.PaperTrading.Settle.{Settlement, settle, transfer, execute_order}

-- Every balance is a value of an unsigned 64-bit word.
abbrev pub FitsWords : Map Bytes ℕ → Type 0
FitsWords balances = (asset : Bytes) → lookup_or asset 0 balances < volume_mod

pub FitsWords-nil : FitsWords []
unfolding lookup_or lookup
FitsWords-nil asset = omega arith

pub FitsWords-cons :
    (k : Bytes) (v : ℕ) (m : Map Bytes ℕ) → v < volume_mod → FitsWords m → FitsWords ((k, v) ∷ m)
unfolding lookup_or lookup
FitsWords-cons k v m h fits asset = ground (arith, fits asset)

-- The sold asset pays exactly, the gained asset is credited, no other balance changes.
pub record IsSettled (s : Settlement) (before after : Map Bytes ℕ) : Type 0 where
  pub paid : lookup_or s.sold_asset 0 after + s.sold_volume ≡ lookup_or s.sold_asset 0 before
  pub credited :
      lookup_or s.gained_asset 0 after
      ≡ (lookup_or s.gained_asset 0 before + s.gain_volume) % volume_mod
  pub kept :
      (asset : Bytes)
      → asset ≢ s.gained_asset
      → asset ≢ s.sold_asset
      → lookup asset after ≡ lookup asset before

module _ {K : Type 0} ⦃e : Equality K⦄ where
  lookup_or-some : (k : K) (v : ℕ) (m : Map K ℕ) → lookup k m ≡ some v → lookup_or k 0 m ≡ v
  unfolding lookup_or
  lookup_or-some k v m h = ground arith

  -- Two writes, and the three kinds of keys.
  two_writes :
      (g s : K) (v w : ℕ) (b : Map K ℕ)
      → g ≢ s
      → let after = insert_or_assign s w (insert_or_assign g v b) in
        (lookup_or s 0 (insert_or_assign g v b) ≡ lookup_or s 0 b)
        × (lookup_or s 0 after ≡ w)
        × (lookup_or g 0 after ≡ v)
        × ((k : K) → k ≢ g → k ≢ s → lookup k after ≡ lookup k b)
  two_writes g s v w b differ = (
    rw (lookup_or-insert_or_assign g s 0 v b, beq-ne g s differ),
    rw (lookup_or-insert_or_assign s s 0 w (insert_or_assign g v b), beq_refl s),
    rw
        (
          lookup_or-insert_or_assign s g 0 w (insert_or_assign g v b),
          beq-ne s g (λ p. differ (sym p)),
        )
        (rw (lookup_or-insert_or_assign g g 0 v b, beq_refl g)),
    λ k h h'.
        rw (lookup-insert_or_assign s k w (insert_or_assign g v b), beq-ne s k (λ p. h' (sym p)))
          (rw (lookup-insert_or_assign g k v b, beq-ne g k (λ p. h (sym p)))),
  )

transfer-IsSettled :
    (s : Settlement) (b : Map Bytes ℕ)
    → FitsWords b
    → s.gained_asset ≢ s.sold_asset
    → s.sold_volume ≤ lookup_or s.sold_asset 0 b
    → IsSettled s b (transfer s b)
unfolding transfer
transfer-IsSettled s b fits differ enough =
    let gained = (lookup_or s.gained_asset 0 b + s.gain_volume) % volume_mod in
    let left =
      (lookup_or s.sold_asset 0 (insert_or_assign s.gained_asset gained b)
        + volume_mod
        - s.sold_volume)
      % volume_mod in
    let (same, sold, credited, kept) =
      two_writes s.gained_asset s.sold_asset gained left b differ in
    record { paid = omega (arith, same, sold, fits s.sold_asset); credited = credited; kept = kept }

module _ {W : Type 0} ⦃d : Double W⦄ where
  funded :
      (a : PaperTradeApi W) (asset : Bytes) (amount v : ℕ)
      → lookup asset a.balances ≡ some v
      → has_sufficient_funds a asset amount ≡ leb amount v
  unfolding has_sufficient_funds
  funded a asset amount v e = ground arith

  unfunded :
      (a : PaperTradeApi W) (asset : Bytes) (amount : ℕ)
      → lookup asset a.balances ≡ none
      → has_sufficient_funds a asset amount ≡ false
  unfolding has_sufficient_funds
  unfunded a asset amount e = ground arith

  -- With balances that fit their words and two different assets in the pair, a fill that the account
  -- can pay succeeds: the sold asset falls by exactly what is paid, the gained asset rises by what is
  -- gained (modulo 2^64), every other balance stays, the order leaves the open orders and joins the
  -- closed ones at the fill price, and the rest of the account is unchanged.
  pub execute_order-settles :
      (now : ℤ) (id : Bytes) (r : OrderRequest W) (fill_price : W) (a : PaperTradeApi W) (v : ℕ)
      → FitsWords a.balances
      → (settle a.fee r fill_price).gained_asset ≢ (settle a.fee r fill_price).sold_asset
      → lookup (settle a.fee r fill_price).sold_asset a.balances ≡ some v
      → (settle a.fee r fill_price).sold_volume ≤ v
      → (b : Map Bytes ℕ) × IsSettled (settle a.fee r fill_price) a.balances b
        × (execute_order now id r fill_price a
            ≡ returns tt (record a {
              balances = b;
              closed_orders = a.closed_orders ++ (to_order_description id fill_price now r ∷ []);
              open_orders = erase id a.open_orders;
            }))
  unfolding execute_order
  execute_order-settles now id r fill_price a v fits differ has enough =
      let s = settle a.fee r fill_price in
      let held : lookup_or s.sold_asset 0 a.balances ≡ v =
        ground (arith, lookup_or-some s.sold_asset v a.balances has) in
      (
        transfer s a.balances,
        transfer-IsSettled s a.balances fits differ (omega (arith, held)),
        rw (funded a s.sold_asset s.sold_volume v has, le→leb s.sold_volume v enough) refl,
      )

  -- A fill throws, with the account unchanged, exactly when the sold asset has no balance or one
  -- below what is to be paid.
  pub execute_order-throws_iff :
      (now : ℤ) (id : Bytes) (r : OrderRequest W) (fill_price : W) (a : PaperTradeApi W)
      → let s = settle a.fee r fill_price in
        (execute_order now id r fill_price a ≡ throws (insufficient_funds s.sold_asset) a) ↔ (
          (lookup s.sold_asset a.balances ≡ none)
          ⊎ ((v : ℕ) × (lookup s.sold_asset a.balances ≡ some v) × (v < s.sold_volume)))
  unfolding execute_order
  execute_order-throws_iff now id r fill_price a =
      let s = settle a.fee r fill_price in
      elim (Option-cases (lookup s.sold_asset a.balances)) [
        | inl e ↦ (λ _. inl e, λ _. rw (unfunded a s.sold_asset s.sold_volume e))
        | inr (v, e) ↦ rw (funded a s.sold_asset s.sold_volume v e) (ground arith)
      ]
