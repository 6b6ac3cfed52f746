-- ===== src/Trading.antt =====
-- trading/: the data that the rest of the library passes around, and candles.
pub mod Constants
pub mod Pair
pub mod Order
pub mod Market
pub mod FromTrades
pub mod MovingCandle
pub mod Tests
pub mod FeeSchedule
