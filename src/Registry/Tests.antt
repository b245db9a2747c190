-- ===== src/Registry/Tests.antt =====
-- Runs of the registry on small inputs, and its theorems at such inputs.
use bazel_broker.Common.{
  ℕ, ◌≡◌, refl, true, false, some, List, [], ◌∷◌, lit, str_eq, decimal, lookup, insert, ℤ, pos,
  negsuc, eqb_ℤ,
}
use bazel_broker.Build.{
  running, finished, gone, is_terminal, registered, discovered, Build, elapsed, milliseconds,
  format_time, to_api,
}
use bazel_broker.Hub.{new_hub, broadcast, deliver_all}
use bazel_broker.Registry.{
  Registry, new_registry, persist, broadcast_build, blank_build, register_merge, stored_or_new,
  register, finish, deregister,
}
use bazel_broker.Registry.Upsert.{find_by_pid, pid_name, upsert_target, upsert_merge, upsert}
use bazel_broker.Registry.Reap.{
  is_missing, reap_build, reap_all, reaped, publish_all, reap_missing_discovered,
}
use bazel_broker.Registry.Reports.{
  count_build, count_all, counts, values, insert_newest, sort_newest, snapshot, active_builds,
  snapshot_active,
}
use bazel_broker.Registry.Follows.{Follows}
use bazel_broker.Registry.Lifecycle.{
  Change, registers, deregisters, upserts, reaps, change, changes, changes-Continues,
}

program : Unit {0}
unfolding str_eq decimal lookup insert is_terminal elapsed milliseconds format_time to_api new_hub
    broadcast deliver_all new_registry persist broadcast_build register_merge stored_or_new register
    finish deregister find_by_pid pid_name upsert_target upsert_merge upsert is_missing reap_build
    reap_all reaped publish_all reap_missing_discovered count_build count_all counts values
    insert_newest sort_newest snapshot active_builds snapshot_active change changes
program = tt

abbrev build_one : Build
build_one = record (blank_build (lit "b1") 0) { worktree = lit "/w"; pid = pos 7 }

abbrev found : ℕ → Build
found pid = record (blank_build [] 0) { worktree = lit "/v"; pid = pos pid; state = running }

-- A build is registered, discovered, ended by its wrapper and discovered once more; another comes and goes.
abbrev history : List Change
history =
    registers build_one 100
    ∷ upserts (found 7) 110
    ∷ deregisters (lit "b1") (pos 0) 120
    ∷ upserts (found 8) 130
    ∷ registers build_one 140
    ∷ reaps (λ pid. eqb_ℤ pid (pos 7)) 150
    ∷ []

abbrev empty_registry : Registry
empty_registry = new_registry true (some new_hub)

abbrev after : Registry
after = changes empty_registry history

one-finished : (counts after).total ≡ 2
unfolding program
one-finished = refl

discovered-gone :
    lookup (lit "pid-8") after.builds
    ≡ some (record (found 8) {
      invocation_id = lit "pid-8";
      start_time = 130;
      source = discovered;
      last_seen = 130;
      state = gone;
      end_time = 150;
    })
unfolding program
discovered-gone = refl

abbrev early : Registry
early = changes empty_registry (registers build_one 100 ∷ deregisters (lit "b1") (pos 0) 120 ∷ [])

abbrev ended : Build
ended = record build_one { start_time = 100; end_time = 120; state = finished; source = registered }

not-pid_name : (p : ℤ) → str_eq (pid_name p) (lit "b1") ≡ false
unfolding program
not-pid_name (pos n) = refl
not-pid_name (negsuc n) = refl

changes-Continues_example :
    (new : Build) × (lookup (lit "b1") (changes early history).builds ≡ some new)
    × Follows ended new
unfolding program
changes-Continues_example =
    changes-Continues early history (lit "b1") not-pid_name (refl, tt) ended refl
