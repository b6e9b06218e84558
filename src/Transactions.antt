-- ===== src/Transactions.antt =====
-- rust/src/api/wallet/transactions.rs and its children: fees, builders, preparation, submission and
-- broadcast of transactions over the prepared slot.
pub mod Submission
pub mod PreparedErrors
pub mod Broadcast
pub mod Fees
pub mod Builders
pub mod Prepare
pub mod Review
pub mod Legacy
