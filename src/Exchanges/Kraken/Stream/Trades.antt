-- ===== src/Exchanges/Kraken/Stream/Trades.antt =====
-- What a message of trades does, told by the form that Kraken documents for it: the number of the channel,
-- the list of the trades, the name of the channel and the name of the pair.
use marketblocks.Prelude.{◌≤◌, ◌-◌, Bytes, true, ◌≡◌, List, [], ◌∷◌, ◌++◌, Option}
use marketblocks.Double.{Double}
use marketblocks.Common.Text.{codes}
use marketblocks.Common.Run.{Run, returns, throws, undefined, and_then}
use marketblocks.Common.Json.{value, read_in, JsonLibrary, Numerals, get_string_at, stod_at}
use marketblocks.Trading.Market.{TradeUpdate}
use marketblocks.Websockets.Live.{LiveWorld, LiveHandlers}
use marketblocks.Websockets.Live.Updates.{update_trade}
use marketblocks.Websockets.Live.Traded.{IsTraded}
use marketblocks.Exchanges.Kraken.Stream.{read_trade}

module _ {J W : Type 0} ⦃l : JsonLibrary J⦄ ⦃n : Numerals J W⦄ where
  -- An element is an array of a price, a volume and a time, all as texts.
  abbrev IsTradeElement : J → TradeUpdate W → Type 0
  IsTradeElement element t =
      (stod_at element 0 ≡ value t.price)
      × (stod_at element 1 ≡ value t.volume)
      × ((text : Bytes) × (get_string_at element 2 ≡ value text)
          × (n.stoll text ≡ value t.time_stamp))

  abbrev AreTrades : List (Option Bytes × J) → List (TradeUpdate W) → Type 0
  AreTrades [] [] = Unit
  AreTrades [] (t ∷ ts) = ⊥
  AreTrades (item ∷ items) [] = ⊥
  AreTrades (item ∷ items) (t ∷ ts) = IsTradeElement item.1 t × AreTrades items ts

module _ (J : Type 0) {W : Type 0} ⦃l : JsonLibrary J⦄ ⦃n : Numerals J W⦄ where
  -- A message of some trades of a pair.
  pub record IsTradeMessage (message name : Bytes) (ts : List (TradeUpdate W)) : Type 0 where
    pub json : J
    pub list : J
    pub channel_text : J
    pub name_text : J
    pub parsed : l.parse message ≡ value json
    pub array : l.is_array json ≡ true
    pub long : 2 ≤ l.size json
    pub listed : l.index json 1 ≡ value list
    pub elements : AreTrades (l.items list) ts
    pub channel_there : l.index json (l.size json - 2) ≡ value channel_text
    pub channel_named : l.get_string channel_text ≡ value (codes "trade")
    pub name_there : l.index json (l.size json - 1) ≡ value name_text
    pub pair_named : l.get_string name_text ≡ value name

module _ {W C S : Type 0} where
  -- A call that returns has kept all of the trades, and one that throws the first ones of them.
  abbrev pub EndsTraded :
      Bytes → List (TradeUpdate W) → LiveWorld W C S → Run (LiveWorld W C S) (Unit {0}) → Type 0
  EndsTraded name ts w (returns u w') = IsTraded name ts w.stream w'.stream
  EndsTraded name ts w (throws e w') =
      (done : List (TradeUpdate W)) × (rest : List (TradeUpdate W)) × (ts ≡ done ++ rest)
      × IsTraded name done w.stream w'.stream
  EndsTraded name ts w undefined = ⊥

module _ {J W C S : Type 0} ⦃l : JsonLibrary J⦄ ⦃n : Numerals J W⦄ ⦃d : Double W⦄
    (handlers : LiveHandlers W C S) where
  abbrev trade_call : Bytes → Option Bytes × J → LiveWorld W C S → Run (LiveWorld W C S) (Unit {0})
  trade_call name item w =
      and_then (read_in (read_trade item.1) w) λ t w. update_trade handlers name t w
