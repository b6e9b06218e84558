-- ===== src/Xswd.antt =====
-- rust/src/api/xswd: sessions and requests of external applications.
pub mod Registry
pub mod Limits
pub mod Payload
pub mod Dispatcher
pub mod Permissions
