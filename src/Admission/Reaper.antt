-- ===== src/Admission/Reaper.antt =====
-- internal/admission/run.go: `reapDeadPIDs`, the backstop that frees the slots of dead processes, and the
-- body of `runTerminalRelease`. `alive` is `RegistryReader.Alive`, as it answers during the pass.
pub mod Laws
use bazel_broker.Common.{
  Bool, true, false, ◌&&◌, not, List, [], ◌∷◌, GoString, is_empty, Assoc, ℤ, pos, ltb_ℤ,
  if◌then◌else◌,
}
use bazel_broker.Admission.Types.{Time, ActiveBuild}
use bazel_broker.Admission.Engine.{Engine, Addr, Waiter, WaiterState}
use bazel_broker.Admission.Engine.Heap.{is_admitted}
use bazel_broker.Admission.Lifecycle.{release}

-- The slots that the loop under the mutex collects: the id and the pid of each.
unfoldable pub held_slots : (Addr → Waiter) → Assoc Addr → List (GoString × ℤ)
held_slots heap [] = []
held_slots heap ((id, a) ∷ by_id) =
    if is_admitted (heap a).state && ltb_ℤ (pos 0) (heap a).req.pid
    then (id, (heap a).req.pid) ∷ held_slots heap by_id
    else held_slots heap by_id

-- The loop outside the mutex.
unfoldable pub release_dead :
    (alive : ℤ → Bool) → Time → List ActiveBuild → List (GoString × ℤ) → Engine → Engine
release_dead alive now builds [] e = e
release_dead alive now builds ((id, pid) ∷ held) e =
    release_dead alive now builds held (if alive pid then e else release e id now builds)

unfoldable pub reap_dead_pids : Engine → (alive : ℤ → Bool) → Time → List ActiveBuild → Engine
reap_dead_pids e alive now builds = release_dead alive now builds (held_slots e.heap e.by_id) e

-- What `runTerminalRelease` does with an id that the registry reports as ended.
unfoldable pub terminal_release : Engine → GoString → Time → List ActiveBuild → Engine
terminal_release e id now builds = if is_empty id then e else release e id now builds
