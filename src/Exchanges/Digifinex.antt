-- ===== src/Exchanges/Digifinex.antt =====
-- exchanges/digifinex/: how the library reads the answers of Digifinex.
pub mod Messages
pub mod Results
