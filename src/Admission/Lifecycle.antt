-- ===== src/Admission/Lifecycle.antt =====
-- internal/admission/engine.go: the life of a waiter, from the long poll that attaches it to its
-- release, and the switches of the engine.
pub mod Invariant
pub mod Polling
use bazel_broker.Common.{
  suc, Bool, true, false, ◌&&◌, not, Option, none, some, List, [], ◌∷◌, ◌++◌, GoString, is_empty,
  lookup, insert, delete, ℤ, sub_ℕ, is_zero, leb_ℤ, ◌==◌, if◌then◌else◌, ℕ,
}
use bazel_broker.Admission.Types.{Verdict, queue, Request, Time, ActiveBuild}
use bazel_broker.Admission.TokenBucket.{set_sample}
use bazel_broker.Admission.Engine.{
  Engine, Addr, Waiter, ws_queued, ws_done, is_queued, write, release_gates, schedule,
}

-- The request of a waiter that polls again: late fields are taken over.
unfoldable pub refresh : Request → Request → Request
refresh old req = record {
  invocation_id = old.invocation_id;
  worktree = if is_empty req.worktree then old.worktree else req.worktree;
  pid = if is_zero req.pid then old.pid else req.pid;
  targets = if is_empty req.targets then old.targets else req.targets;
}

abbrev pub attach_new : Engine → Request → Engine × Addr
attach_new e req = (
  record e {
    by_id = insert req.invocation_id e.next e.by_id;
    line = e.line ++ e.next ∷ [];
    heap =
        write e.heap e.next
          (record { req = req; state = ws_queued; connected = true; last_detach = 0; ch = none });
    next = suc e.next;
  },
  e.next,
)

abbrev pub attach_old : Engine → Request → Addr → Engine × Addr
attach_old e req a = (
  record e {
    heap =
        write e.heap a (record (e.heap a) { req = refresh (e.heap a).req req; connected = true });
  },
  a,
)

-- What `attach` does under the mutex.
unfoldable pub attach_locked : Engine → Request → Engine × Addr
attach_locked e req = elim (lookup req.invocation_id e.by_id) [
  | none ↦ attach_new e req
  | some a ↦ attach_old e req a
]

unfoldable pub attach : Engine → Request → Time → List ActiveBuild → Engine × Addr
attach e req now builds = let (e', a) = attach_locked e req in (schedule e' now builds, a)

unfoldable pub detach : Engine → Addr → Time → Engine
detach e a now = record e {
  heap = write e.heap a (record (e.heap a) { connected = false; last_detach = now });
}

-- A receive from the channel, which takes the verdict out.
unfoldable pub receive : Engine → Addr → Engine × Option Verdict
receive e a = (record e { heap = write e.heap a (record (e.heap a) { ch = none }) }, (e.heap a).ch)

-- What ends the wait of `Admit`: the channel, or the poll timer or the request's context.
pub data Wake : Type 0 where
  channel expired : Wake

abbrev await : Engine → Addr → Wake → Engine × Verdict
await e a expired = (e, queue)
await e a channel = let (e', v?) = receive e a in elim v? [ none ↦ (e, queue) | some v ↦ (e', v) ]

-- What the rest of the daemon does to the engine while `Admit` runs without the mutex: after the waiter is
-- in the queue, after the `schedule` of `attach`, during the wait, and before `detach`.
pub record Others : Type 0 where
  pub enqueued : Engine → Engine
  pub attached : Engine → Engine
  pub waiting : Engine → Engine
  pub leaving : Engine → Engine

-- `Admit`. `wake` is the case of the second `select` that is taken, of which the channel is ready only with a
-- verdict in it.
unfoldable pub admit :
    Engine
    → Request
    → (attached left : Time) → List ActiveBuild
    → (others : Others) → Wake
    → Engine × Verdict
admit e req attached left builds others wake =
    let (e1, a) = attach_locked e req in
    let e2 = others.attached (schedule (others.enqueued e1) attached builds) in
    let (e3, ready) = receive e2 a in
    let (e4, v) = await (others.waiting e3) a wake in
    elim ready [
      | some w ↦ (detach (others.leaving e3) a left, w)
      | none ↦ (detach (others.leaving e4) a left, v)
    ]

-- What `Release` does under the mutex.
unfoldable pub release_locked : Engine → GoString → Engine
release_locked e id =
    let stopped = delete id e.retry_timers in
    elim (lookup id e.by_id) [
      | none ↦ record e { retry_timers = stopped }
      | some a ↦ record e {
        by_id = delete id e.by_id;
        heap = write e.heap a (record (e.heap a) { state = ws_done });
        retry_timers = stopped;
      }
    ]

unfoldable pub release : Engine → GoString → Time → List ActiveBuild → Engine
release e id now builds = schedule (release_gates (release_locked e id) id) now builds

-- The function that `armRetryTimer` hands to its timer: under the mutex, and then `schedule`.
unfoldable pub disarm : Engine → GoString → Engine
disarm e id = record e { retry_timers = delete id e.retry_timers }

unfoldable pub retry_fires : Engine → GoString → Time → List ActiveBuild → Engine
retry_fires e id now builds = schedule (disarm e id) now builds

-- Whether `gcQueued` drops the waiter.
unfoldable pub is_stale : Engine → Time → Waiter → Bool
is_stale e now w =
    is_queued w.state
    && not w.connected
    && not (w.last_detach == 0)
    && leb_ℤ e.queued_gc_grace (sub_ℕ now w.last_detach)

abbrev pub drop_waiter : Engine → Addr → Engine
drop_waiter e a = record e {
  heap = write e.heap a (record (e.heap a) { state = ws_done });
  by_id = delete (e.heap a).req.invocation_id e.by_id;
}

-- The loop of `gcQueued`: `kept` is what it has kept so far.
unfoldable pub gc_loop : Time → (kept : List Addr) → List Addr → Engine → Engine
gc_loop now kept [] e = record e { line = kept }
gc_loop now kept (a ∷ rest) e =
    let stale = is_stale e now (e.heap a) in
    gc_loop now (if stale then kept else kept ++ a ∷ []) rest (if stale then drop_waiter e a else e)

unfoldable pub gc_queued : Engine → Time → Engine
gc_queued e now = gc_loop now [] e.line e

unfoldable pub set_paused : Engine → Bool → Time → List ActiveBuild → Engine
set_paused e p now builds = schedule (record e { paused = p }) now builds

unfoldable pub set_draining : Engine → Bool → Time → List ActiveBuild → Engine
set_draining e d now builds = schedule (record e { draining = d }) now builds

unfoldable pub resume : Engine → Time → List ActiveBuild → Engine
resume e now builds = schedule (record e { paused = false; draining = false }) now builds

unfoldable pub on_load_sample : Engine → (cpu : ℕ) (ram_p : ℤ) → Time → List ActiveBuild → Engine
on_load_sample e cpu ram_p now builds =
    schedule (record e { bucket = set_sample e.bucket cpu ram_p; recently_admitted = 0 }) now builds
