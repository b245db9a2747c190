-- ===== src/Bep.antt =====
-- internal/bep: the ingestion of Bazel's build event files.
pub mod Stream
pub mod Manager
pub mod DiskCache
mod Tests
