-- ===== src/Exchanges/Binance/Results/Fills.antt =====
-- What the confirmation of an order says of the fills that the answer of Binance lists.
use marketblocks.Prelude.{Bytes, ◌≡◌, refl, sym, ◌∙◌, ap, Option, List, map, foldl, [], ◌∷◌}
use marketblocks.Double.{Double, zero_double}
use marketblocks.Common.Text.{codes}
use marketblocks.Common.Json.{
  Read, value, JsonLibrary, Numerals, get_long_of, get_string_of, stod_of, read_each,
}
use marketblocks.Common.Json.Loops.{value_inj, bind-value, for_each-foldl}
use marketblocks.Trading.Order.{OrderConfirmation}
use marketblocks.Exchanges.Binance.Results.Answers.{
  read_fill, add_fill, read_fills, read_confirmation,
}

module _ {W : Type 0} ⦃d : Double W⦄ where
  abbrev pub sum : List W → W
  sum = foldl {B = W} d.add zero_double

  sums_from :
      (fills : List (W × W)) (a b : W)
      → foldl add_fill (a, b) fills ≡ (
        foldl {B = W} d.add a (map (λ (f : W × W). d.mul f.0 f.1) fills),
        foldl {B = W} d.add b (map (λ (f : W × W). f.1) fills),
      )
  unfolding add_fill
  sums_from [] a b = refl
  sums_from (f ∷ fills) a b = sums_from fills (d.add a (d.mul f.0 f.1)) (d.add b f.1)

module _ {J W : Type 0} ⦃l : JsonLibrary J⦄ ⦃n : Numerals J W⦄ ⦃d : Double W⦄ where
  read_fills-sum :
      (json : J) (sums : W × W)
      → read_fills json ≡ value sums
      → (fills : List (W × W)) × (read_each
            (λ (item : Option Bytes × J). read_fill item.1)
            (l.items json)
          ≡ value fills)
        × (sums ≡ (
          sum (map (λ (f : W × W). d.mul f.0 f.1) fills),
          sum (map (λ (f : W × W). f.1) fills),
        ))
  unfolding read_fills
  read_fills-sum json sums h =
      let read : Option Bytes × J → Read (W × W) = λ item. read_fill item.1 in
      let (fills, p, k) =
        bind-value (read_each read (l.items json))
          (λ fills. value (foldl add_fill (zero_double, zero_double) fills)) sums
          (sym (for_each-foldl read add_fill (l.items json) (zero_double, zero_double)) ∙ h) in
      (fills, p, sym (value_inj k) ∙ sums_from fills zero_double zero_double)

  -- Where a confirmation is read, each item of the member `fills` is read as a price and a quantity, and
  -- the price of the confirmation is the sum of price times quantity over the fills, divided by the sum
  -- of the quantities.
  pub read_confirmation-average :
      (json : J) (confirmation : OrderConfirmation W)
      → read_confirmation json ≡ value confirmation
      → (list : J) × (fills : List (W × W)) × (l.member json (codes "fills") ≡ value list)
        × (read_each (λ (item : Option Bytes × J). read_fill item.1) (l.items list) ≡ value fills)
        × (confirmation.price
            ≡ d.div
                (sum (map (λ (f : W × W). d.mul f.0 f.1) fills))
                (sum (map (λ (f : W × W). f.1) fills)))
  unfolding read_confirmation
  read_confirmation-average json c h =
      let (list, p, k) = bind-value (l.member json (codes "fills")) _ c h in
      let (sums, q, k1) = bind-value (read_fills list) _ c k in
      let (_, _, k2) = bind-value (get_long_of json (codes "orderId")) _ c k1 in
      let (_, _, k3) = bind-value (get_string_of json (codes "status")) _ c k2 in
      let (_, _, k4) = bind-value (stod_of json (codes "origQty")) _ c k3 in
      let (_, _, k5) = bind-value (stod_of json (codes "executedQty")) _ c k4 in
      let (fills, r, same) = read_fills-sum list sums q in
      (
        list,
        fills,
        p,
        r,
        sym (ap (λ (c : OrderConfirmation W). c.price) (value_inj k5))
            ∙ ap (λ (sums : W × W). d.div sums.0 sums.1) same,
      )
