-- ===== src/Domain.antt =====
-- internal/domain: the pure rules of the panel, one module per file of the package.
pub mod Errors
pub mod User
pub mod Inbound
pub mod Sync
pub mod Quota
pub mod Port
pub mod Traffic
pub mod Tests
