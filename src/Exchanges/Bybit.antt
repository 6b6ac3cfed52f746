-- ===== src/Exchanges/Bybit.antt =====
-- exchanges/bybit/: how the library reads the answers of Bybit.
pub mod Results
