-- ===== src/Traffic.antt =====
-- internal/application/traffic_service.go and internal/adapter/xray/stats.go: one round of collection.
pub mod Counters
pub mod Reading
pub mod Update
pub mod Tests
