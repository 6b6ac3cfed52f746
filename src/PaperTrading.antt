-- ===== src/PaperTrading.antt =====
-- testing/paper_trading/paper_trade_api.h and .cpp: `class paper_trade_api`, an exchange account that
-- fills orders against the prices of a stream. The lock that every public method takes makes the
-- calls on one object follow one another, so a history is a list of calls.
pub mod State
pub mod Settle
pub mod Fill
pub mod Handler
pub mod Api
pub mod Books
pub mod Tests
