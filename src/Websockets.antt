-- ===== src/Websockets.antt =====
-- exchanges/websockets/: streams of market data.
pub mod Constants
pub mod Stream
pub mod BookCache
pub mod Intervals
pub mod Tests
pub mod Handlers
pub mod Messages
pub mod Live
