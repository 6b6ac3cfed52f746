-- ===== src/Exchanges.antt =====
-- exchanges/: what the library asks the exchanges and how it reads their answers.
pub mod Status
pub mod Books
pub mod Requests
pub mod Binance
pub mod Kraken
pub mod Coinbase
pub mod Bybit
pub mod Digifinex
pub mod Documents
pub mod Tests
