-- ===== src/BackTesting.antt =====
-- testing/back_testing/: historical candles as a market.
pub mod Cursor
pub mod Data
pub mod Candles
pub mod History
pub mod Stream
pub mod Tests
