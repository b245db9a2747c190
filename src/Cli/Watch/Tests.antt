-- ===== src/Cli/Watch/Tests.antt =====
-- The theorem on the waits at three drops of the connection, with the backoff of `RunWatch`.
use bazel_broker.Common.{ℕ, ◌/◌, ◌≤◌, false, some, List, [], ◌∷◌, All, arith}
use bazel_broker.Cli.Watch.{conn_error, Backoff, half_wait, doubled, Attempt, run_watch}
use bazel_broker.Cli.Watch.Laws.{IsJittered, run_watch_waits}

abbrev backoff : Backoff
backoff = record { cur = 5000000000; max = 5000000000; base = 200000000 }

abbrev drop_after : ℕ → Attempt
drop_after jitter = record {
  cancelled = false;
  err = some conn_error;
  jitter = jitter;
  woken = false;
}

abbrev attempts : List Attempt
attempts = drop_after 1000000000 ∷ drop_after 0 ∷ drop_after 2500000000 ∷ []

attempts-IsJittered : IsJittered backoff attempts
unfolding half_wait doubled
attempts-IsJittered = (omega arith, (omega arith, (omega arith, tt)))

run_watch_waits_example :
    All (λ wait. wait ≤ 5000000000) (run_watch false backoff attempts).0
    × (5000000000 ≤ 5000000000
        → All (λ wait. 5000000000 / 2 ≤ wait) (run_watch false backoff attempts).0)
run_watch_waits_example = run_watch_waits false backoff attempts attempts-IsJittered
