-- ===== src/Store.antt =====
-- internal/persistence/sqlite: the tables of the panel and the transactions on them.
pub mod Tables
pub mod Sync
pub mod Outcome
pub mod Intent
pub mod Accounts
pub mod Drift
pub mod Templates
pub mod Users
pub mod Tests
