-- ===== src/PaperTrading/State.antt =====
-- The fields of `paper_trade_api`, its constructor and the queries that only read them.
use marketblocks.Prelude.{
  ℕ, ℤ, pos, Bytes, Bool, false, none, some, List, [], ◌^◌, map, leb, bytes_equality, Map, lookup,
  contains_key, if◌then◌else◌,
}
use marketblocks.Double.{Double}
use marketblocks.Trading.Constants.{OrderStatus, opened, closed}
use marketblocks.Trading.Pair.{TradablePair, pair_to_string}
use marketblocks.Trading.Order.{OrderRequest, OrderDescription, asset_price, volume_parameter, get}

-- `volume_t`, an `unsigned long long`
abbrev pub volume_mod : ℕ
volume_mod = 2 ^ 64

pub record PaperTradeApi (W : Type 0) : Type 0 where
  pub fee : W
  pub trailing_order_limits : Map Bytes W
  pub balances : Map Bytes ℕ
  pub open_orders : Map Bytes (OrderRequest W)
  pub open_orders_by_pair : Map TradablePair (List Bytes)
  pub closed_orders : List (OrderDescription W)
  pub next_order_number : ℕ

module _ {W : Type 0} ⦃d : Double W⦄ where
  -- 10^10
  abbrev volume_modifier : W
  volume_modifier = d.literal (pos 10_000_000_000) 0

  unfoldable pub to_integer_volume : W → ℕ
  to_integer_volume v = d.to_u64 (d.mul v volume_modifier)

  unfoldable pub create_initialised_balances : Map Bytes W → Map Bytes ℕ
  unfolding to_integer_volume
  create_initialised_balances = map λ (asset, balance). (asset, to_integer_volume balance)

  -- The constructor, from the two fields of `paper_trading_config`.
  unfoldable pub new_paper_trade_api : W → Map Bytes W → PaperTradeApi W
  unfolding create_initialised_balances
  new_paper_trade_api fee balances = record {
    fee = fee;
    trailing_order_limits = [];
    balances = create_initialised_balances balances;
    open_orders = [];
    open_orders_by_pair = [];
    closed_orders = [];
    next_order_number = 1;
  }

  unfoldable pub to_order_description : Bytes → W → ℤ → OrderRequest W → OrderDescription W
  unfolding get pair_to_string
  to_order_description id fill_price time r = record {
    time_stamp = time;
    order_id = id;
    order_type = r.order_type;
    pair_name = pair_to_string r.pair;
    action = r.action;
    price = fill_price;
    volume = get r volume_parameter;
  }

  -- `static_cast<double>(volume) / VolumeModifier` for each balance
  unfoldable pub get_balances : PaperTradeApi W → Map Bytes W
  get_balances a =
      map (λ (asset, v). (asset, d.div (d.literal (pos v) 0) volume_modifier)) a.balances

  -- The clock is read once here, and once for each order in the source.
  unfoldable pub get_open_orders : PaperTradeApi W → ℤ → List (OrderDescription W)
  unfolding to_order_description
  get_open_orders a now =
      map (λ (id, r). to_order_description id (get r asset_price) now r) a.open_orders

module _ {W : Type 0} where
  unfoldable pub has_sufficient_funds : PaperTradeApi W → Bytes → ℕ → Bool
  unfolding lookup
  has_sufficient_funds a asset amount = elim (lookup asset a.balances) [
    | none ↦ false
    | some balance ↦ leb amount balance
  ]

  unfoldable pub get_fee : PaperTradeApi W → TradablePair → W
  get_fee a pair = a.fee

  unfoldable pub get_closed_orders : PaperTradeApi W → List (OrderDescription W)
  get_closed_orders a = a.closed_orders

  unfoldable pub get_order_status : PaperTradeApi W → Bytes → OrderStatus
  unfolding contains_key
  get_order_status a id = if contains_key id a.open_orders then opened else closed
