-- ===== src/Runtime.antt =====
-- rust/src/api/wallet/runtime/: what all wallets of the application share while they run.
pub mod TableCache
