-- ===== src/Registry/Reap.antt =====
-- internal/registry/registry.go: `ReapMissingDiscovered`, for discovered builds whose process is gone,
-- and `HydrateFromStore`, which reads back what an earlier run of the daemon had saved.
use bazel_broker.Common.{
  Bool, true, false, ◌&&◌, not, List, [], ◌∷◌, Assoc, insert, ℤ, is_zero, ◌==◌, if◌then◌else◌,
}
use bazel_broker.Admission.Types.{Time}
use bazel_broker.Build.{gone, is_terminal, Source, discovered, Build}
use bazel_broker.Registry.{Registry, publish}

abbrev pub is_discovered : Source → Bool
is_discovered discovered = true
is_discovered _ = false

-- Whether the loop reaps the build. `seen` tells which pids the discovery pass saw.
unfoldable pub is_missing : (ℤ → Bool) → Build → Bool
is_missing seen b =
    is_discovered b.source && not (is_terminal b.state) && not (is_zero b.pid) && not (seen b.pid)

unfoldable pub reap_build : (ℤ → Bool) → Time → Build → Build
reap_build seen now b = if is_missing seen b then record b { state = gone; end_time = now } else b

-- The loop under the mutex.
unfoldable pub reap_all : (ℤ → Bool) → Time → Assoc Build → Assoc Build
reap_all seen now [] = []
reap_all seen now ((k, b) ∷ builds) = (k, reap_build seen now b) ∷ reap_all seen now builds

-- The builds that the loop reaps, as it leaves them.
unfoldable pub reaped : (ℤ → Bool) → Time → Assoc Build → List Build
reaped seen now [] = []
reaped seen now ((k, b) ∷ builds) =
    if is_missing seen b
    then reap_build seen now b ∷ reaped seen now builds
    else reaped seen now builds

unfoldable pub publish_all : Registry → List Build → Time → Registry
publish_all r [] now = r
publish_all r (b ∷ bs) now = publish_all (publish r b now) bs now

unfoldable pub reap_missing_discovered : Registry → (ℤ → Bool) → Time → Registry
reap_missing_discovered r seen now =
    publish_all (record r { builds = reap_all seen now r.builds }) (reaped seen now r.builds) now

-- The build that `HydrateFromStore` makes of a row.
unfoldable pub hydrate_build : Time → Build → Build
hydrate_build now b =
    if is_terminal b.state
    then b
    else record b { state = gone; end_time = if b.end_time == 0 then now else b.end_time }

unfoldable pub hydrate_all : Time → List Build → Assoc Build → Assoc Build
hydrate_all now [] builds = builds
hydrate_all now (b ∷ rows) builds =
    hydrate_all now rows (insert b.invocation_id (hydrate_build now b) builds)

-- `HydrateFromStore`, given the rows that the store reports as most recent.
unfoldable pub hydrate_from_store : Registry → List Build → Time → Registry
hydrate_from_store r rows now = record r { builds = hydrate_all now rows r.builds }
