-- ===== src/Worker.antt =====
-- The transcoder-worker.
pub mod Media
pub mod World
pub mod Transcode
pub mod Objects
pub mod Cleanup
pub mod Reconcile
pub mod Tests
