-- ===== src/Worker.antt =====
-- internal/worker/synchronizer.go: the worker that projects the wanted state of an allocation to Xray.
pub mod World
pub mod Ending
pub mod Create
pub mod Rotate
pub mod Handle
pub mod Silent
pub mod Runs
pub mod Fenced
pub mod Guarded
pub mod Drift
pub mod Tests
