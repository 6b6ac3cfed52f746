-- ===== src/PaperTrading/Books.antt =====
-- The order books of an account: the open orders, the lists by pair, the closed orders and the
-- trailing limits agree, whatever calls have been made.
mod ByPair
mod Parts
mod Rounds
mod History
mod Adding
mod Due
mod Sweep
pub use Parts.*
pub use Rounds.*
pub use History.*
pub use Adding.*
pub use Due.{is_due}
pub use Sweep.*
