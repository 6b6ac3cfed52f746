-- ===== src/Exchanges/Coinbase.antt =====
-- exchanges/coinbase/: how the library reads the answers of Coinbase.
pub mod Results
