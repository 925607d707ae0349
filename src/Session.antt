-- ===== src/Session.antt =====
-- pkg/session: records, identifiers, the store interface, the stores in memory and on disk,
-- and the lease of a directory.
pub mod Types
pub mod Id
pub mod Memory
pub mod Lease
pub mod Disk
