-- ===== src/Store/Recovery.antt =====
-- Recovery of claimed work in sqlite.rs: expired leases, release, the cascade of composite barriers.
pub mod Expiry
pub mod Expired
pub mod Cascade
pub mod Release
pub mod Ends
