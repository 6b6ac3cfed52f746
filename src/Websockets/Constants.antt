-- ===== src/Websockets/Constants.antt =====
-- exchanges/websockets/websocket_stream_constants.h and .cpp.
use marketblocks.Prelude.{
  ℕ, Bytes, Bool, true, false, Option, none, some, ◌*◌, ◌/◌, ◌≡◌, ◌↔◌, [], ◌∷◌, arith, Equality,
  ◌==◌, bytes_equality, nat_equality, Map, lookup, if◌then◌else◌,
}
use marketblocks.Common.Text.{codes}

pub data WebsocketChannel : Type 0 where
  order_book trade ohlcv : WebsocketChannel

pub data OhlcvInterval : Type 0 where
  m1 m5 m15 h1 d1 w1 unknown : OhlcvInterval

pub data SubscriptionStatus : Type 0 where
  unsubscribed subscribed : SubscriptionStatus

abbrev pub channel_beq : WebsocketChannel → WebsocketChannel → Bool
channel_beq order_book order_book = true
channel_beq trade trade = true
channel_beq ohlcv ohlcv = true
channel_beq _ _ = false

pub channel_beq_iff : (a b : WebsocketChannel) → (channel_beq a b ≡ true) ↔ (a ≡ b)
channel_beq_iff a b = ground arith

instance abbrev pub channel_equality : Equality WebsocketChannel
channel_equality = record { beq = channel_beq; beq_iff = channel_beq_iff }

abbrev pub interval_beq : OhlcvInterval → OhlcvInterval → Bool
interval_beq m1 m1 = true
interval_beq m5 m5 = true
interval_beq m15 m15 = true
interval_beq h1 h1 = true
interval_beq d1 d1 = true
interval_beq w1 w1 = true
interval_beq unknown unknown = true
interval_beq _ _ = false

pub interval_beq_iff : (a b : OhlcvInterval) → (interval_beq a b ≡ true) ↔ (a ≡ b)
interval_beq_iff a b = ground arith

instance abbrev pub interval_equality : Equality OhlcvInterval
interval_equality = record { beq = interval_beq; beq_iff = interval_beq_iff }

abbrev interval_names : Map Bytes OhlcvInterval
interval_names =
    (codes "1m", m1)
    ∷ (codes "5m", m5)
    ∷ (codes "15m", m15)
    ∷ (codes "1h", h1)
    ∷ (codes "1d", d1)
    ∷ (codes "1w", w1)
    ∷ []

unfoldable pub parse_ohlcv_interval : Bytes → OhlcvInterval
unfolding lookup
parse_ohlcv_interval name = elim (lookup name interval_names) [ none ↦ unknown | some i ↦ i ]

-- A name that the table lacks is the empty text.
unfoldable pub interval_to_string : OhlcvInterval → Bytes
interval_to_string m1 = codes "1m"
interval_to_string m5 = codes "5m"
interval_to_string m15 = codes "15m"
interval_to_string h1 = codes "1h"
interval_to_string d1 = codes "1d"
interval_to_string w1 = codes "1w"
interval_to_string unknown = []

-- `none` is the end of a function that returns nothing, which C++ leaves undefined.
unfoldable pub to_seconds : OhlcvInterval → Option ℕ
to_seconds m1 = some 60
to_seconds m5 = some 300
to_seconds m15 = some 900
to_seconds h1 = some 3600
to_seconds d1 = some 86400
to_seconds w1 = some 604800
to_seconds unknown = none

unfoldable pub to_minutes : OhlcvInterval → Option ℕ
unfolding to_seconds
to_minutes i = elim (to_seconds i) [ none ↦ none | some s ↦ some (s / 60) ]

unfoldable pub from_seconds : ℕ → OhlcvInterval
from_seconds s =
    if s == 60
    then m1
    else if s == 300
    then m5
    else if s == 900
    then m15
    else if s == 3600
    then h1
    else if s == 86400
    then d1
    else if s == 604800
    then w1
    else unknown

unfoldable pub from_minutes : ℕ → OhlcvInterval
unfolding from_seconds
from_minutes m = from_seconds (m * 60)
