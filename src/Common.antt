-- ===== src/Common.antt =====
-- common/: text, rows of CSV files, containers, and calls that may throw.
pub mod Text
pub mod Run
pub mod Finance
pub mod Math
pub mod SetQueue
pub mod Retry
pub mod Strings
pub mod Json
pub mod Tests
