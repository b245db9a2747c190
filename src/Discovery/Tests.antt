-- ===== src/Discovery/Tests.antt =====
-- A pass of discovery that finds one process in a worktree and misses another.
use bazel_broker.Common.{
  ℕ, ◌≡◌, refl, Bool, true, false, Option, none, some, [], ◌∷◌, All, GoString, lit, str_eq, decimal,
  is_empty, lookup, insert, pos, if◌then◌else◌,
}
use bazel_broker.Build.{is_terminal, elapsed, milliseconds, format_time, to_api, Build}
use bazel_broker.Registry.{Registry, new_registry, persist, broadcast_build}
use bazel_broker.Registry.Upsert.{find_by_pid, pid_name, upsert_target, upsert_merge, upsert}
use bazel_broker.Registry.Reap.{
  is_missing, reap_build, reap_all, reaped, publish_all, reap_missing_discovered,
}
use bazel_broker.Discovery.{
  ProcInfo, Worktree, merge_all, seen_pids, reconcile_once, reconcile_once-found, Accounted,
}

program : Unit {0}
unfolding str_eq decimal lookup insert is_terminal elapsed milliseconds format_time to_api
    new_registry persist broadcast_build find_by_pid pid_name upsert_target upsert_merge upsert
    is_missing reap_build reap_all reaped publish_all reap_missing_discovered merge_all seen_pids
    reconcile_once
program = tt

abbrev resolve : GoString → Option Worktree
resolve cwd = if is_empty cwd then none else some (record { root = cwd; name = cwd; git_dir = [] })

abbrev proc : ℕ → ProcInfo
proc pid = record { pid = pos pid; exe_path = lit "/bazel"; cwd = lit "/w" }

abbrev empty_registry : Registry
empty_registry = new_registry true none

abbrev first : Registry
first = (reconcile_once resolve 10 empty_registry (some (proc 7 ∷ proc 8 ∷ []))).0

abbrev second : Registry
second = (reconcile_once resolve 20 first (some (proc 8 ∷ []))).0

abbrev has_ended : Option Build → Bool
has_ended none = false
has_ended (some b) = is_terminal b.state

seven-gone : has_ended (lookup (lit "pid-7") second.builds) ≡ true
unfolding program
seven-gone = refl

reconcile_once-found_example : All (λ e. Accounted resolve 20 (proc 8 ∷ []) e.1) second.builds
reconcile_once-found_example = reconcile_once-found resolve 20 first (proc 8 ∷ [])
