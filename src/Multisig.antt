-- ===== src/Multisig.antt =====
-- rust/src/api/wallet/multisig.rs: the signing of transactions by several participants.
pub mod Pending
