-- ===== src/Admission.antt =====
-- internal/admission: the admission engine, its gates and its surroundings.
pub mod Types
pub mod Targets
pub mod Semaphore
pub mod TokenBucket
pub mod Stagger
pub mod Engine
pub mod Lifecycle
pub mod Reaper
pub mod Concurrent
pub mod Http
mod Tests
