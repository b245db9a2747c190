-- ===== src/Kill/Route/Tests.antt =====
-- The theorems on the kill handler at a registry of one build, whose process is gone at 300 milliseconds.
use bazel_broker.Common.{
  ℕ, ◌+◌, ◌≤◌, ◌≡◌, ◌≢◌, refl, true, false, none, some, [], ◌∷◌, lit, GoString, str_eq, lookup, ltb,
  pos, pos_part, if◌then◌else◌, arith,
}
use bazel_broker.Build.{Build, running, milliseconds}
use bazel_broker.Registry.{Registry, new_registry, blank_build, get_build}
use bazel_broker.Kill.{
  delivered, esrch, at_path, Os, Outcome, KillConfig, grace_of, poll_of, pid_gone, wait_loop,
  wait_gone, escalate, graceful_signal, try_command_server_cancel, await_grace, try_cancel,
  signal_proc, check_identity, kill_proc,
}
use bazel_broker.Kill.Laws.{IsTimely, Gone}
use bazel_broker.Kill.Route.{
  KillRequest, KillResponse, write_kill_error, write_kill, kill_response, freshened, answer_kill,
  kill_build, kill_route,
}
use bazel_broker.Kill.Route.Laws.{kill_route_guards, kill_route-Honest, kill_route_ends}

abbrev os : Os
os = record {
  World = ℕ;
  kill = λ w pid s. (if ltb w 300000000 then delivered else esrch, w);
  pid_path = λ w pid. (at_path (lit "/bazel"), w);
  now = λ w. w;
  sleep = λ w d. (false, w + pos_part d);
}

os-IsTimely : IsTimely os
os-IsTimely = record { kill_later = λ w pid s. omega arith; sleep_lasts = λ w d h. omega arith }

abbrev config : KillConfig
config = record { grace = pos 0; poll_every = pos 0; use_cancel = false }

abbrev build_one : Build
build_one = record (blank_build (lit "b1") 0) {
  pid = pos 42;
  exe_path = lit "/bazel";
  state = running;
}

abbrev one_build : Registry
one_build = record (new_registry false none) { builds = (lit "b1", build_one) ∷ [] }

abbrev request : GoString → KillRequest
request id = record { invocation_id = id; force = false; use_cancel = true }

program : Unit {0}
unfolding str_eq lookup milliseconds get_build new_registry grace_of poll_of pid_gone wait_loop
    wait_gone escalate graceful_signal try_command_server_cancel await_grace try_cancel signal_proc
    check_identity kill_proc kill_response freshened answer_kill kill_build kill_route
program = tt

kill_route_guards_example :
    (status : ℕ) × (code : GoString) × (400 ≤ status)
    × (kill_route os 31 (one_build, 0) config none (request (lit "b2"))
        ≡ some (write_kill_error status code, (one_build, 0)))
unfolding program
kill_route_guards_example =
    kill_route_guards os 31 (one_build, 0) config none (request (lit "b2")) refl (λ b e. cc)

abbrev answer : KillResponse
answer = write_kill 200 (record {
  is_killed = true;
  invocation_id = lit "b1";
  pid = pos 42;
  outcome = Outcome.graceful;
  elapsed_ms = pos 300;
})

kill_route-Honest_example :
    (b : Build) × (get_build one_build (lit "b1") ≡ some b)
    × Gone os b.pid 300000000
    × (one_build ≡ one_build)
unfolding program
kill_route-Honest_example =
    kill_route-Honest os 31 (one_build, 0) config none (request (lit "b1")) answer
      (one_build, 300000000) refl refl

kill_route_ends_example : kill_route os 31 (one_build, 0) config none (request (lit "b1")) ≢ none
unfolding program
kill_route_ends_example =
    kill_route_ends os 30 (one_build, 0) config none (request (lit "b1")) os-IsTimely (omega arith)
      (omega arith)
