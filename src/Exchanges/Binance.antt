-- ===== src/Exchanges/Binance.antt =====
-- exchanges/binance/: how the library reads the answers of Binance.
pub mod Results
