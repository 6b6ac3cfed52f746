-- ===== src/Exchanges/Kraken.antt =====
-- exchanges/kraken/: how the library reads the answers and the messages of Kraken.
pub mod Results
pub mod Stream
pub mod Api
