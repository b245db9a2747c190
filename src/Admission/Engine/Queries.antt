-- ===== src/Admission/Engine/Queries.antt =====
-- internal/admission/engine.go: what the engine reports of itself.
use bazel_broker.Common.{ℕ, Bool, tally, ℤ}
use bazel_broker.Admission.Semaphore.{held_count}
use bazel_broker.Admission.Engine.{Engine, is_queued}

pub record Status : Type 0 where
  pub max_concurrent : ℕ
  pub held : ℕ
  pub queued : ℕ
  pub paused : Bool
  pub draining : Bool
  pub cpu : ℕ
  pub ram_pressure : ℤ

-- `countQueuedLocked` and `QueuedCount`.
unfoldable pub queued_count : Engine → ℕ
queued_count e = tally (λ a. is_queued (e.heap a).state) e.line

-- `Engine.Status`.
unfoldable pub status : Engine → Status
status e = record {
  max_concurrent = e.sem.max;
  held = held_count e.sem;
  queued = queued_count e;
  paused = e.paused;
  draining = e.draining;
  cpu = e.bucket.cpu;
  ram_pressure = e.bucket.ram_p;
}
