-- ===== src/Rpc.antt =====
-- crates/rpc/src/lib.rs: the client of the provider, with its retries.
pub mod Client
pub mod Retry
pub mod Success
