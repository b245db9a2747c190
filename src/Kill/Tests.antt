-- ===== src/Kill/Tests.antt =====
-- The theorems on the kill state machine, on a system whose state is its clock and whose process ignores
-- the graceful signals and is gone after 300 milliseconds.
use bazel_broker.Common.{
  ℕ, ◌+◌, ◌≡◌, ◌≢◌, Option, refl, true, false, none, some, lit, str_eq, ltb, pos, pos_part,
  if◌then◌else◌, arith,
}
use bazel_broker.Kill.{
  delivered, esrch, at_path, Outcome, already_gone, proc_gone, Os, graceful, failed, KillError,
  KillConfig, KillSpec, grace_of, poll_of, pid_gone, wait_loop, wait_gone, escalate,
  graceful_signal, try_command_server_cancel, await_grace, try_cancel, signal_proc, check_identity,
  kill_proc,
}
use bazel_broker.Kill.Laws.{IsTimely, kill_proc_refuses}

abbrev dies_at : ℕ → Os
dies_at end = record {
  World = ℕ;
  kill = λ w pid s. (if ltb w end then delivered else esrch, w);
  pid_path = λ w pid. (at_path (lit "/bazel"), w);
  now = λ w. w;
  sleep = λ w d. (false, w + pos_part d);
}

abbrev os : Os
os = dies_at 300000000

os-IsTimely : IsTimely os
os-IsTimely = record { kill_later = λ w pid s. omega arith; sleep_lasts = λ w d h. omega arith }

abbrev config : KillConfig
config = record { grace = pos 0; poll_every = pos 0; use_cancel = true }

abbrev spec : KillSpec
spec = record { pid = pos 42; expect_exe = lit "/bazel"; force = false }

abbrev other_spec : KillSpec
other_spec = record spec { expect_exe = lit "/" }

program : Unit {0}
unfolding str_eq grace_of poll_of pid_gone wait_loop wait_gone escalate graceful_signal
    try_command_server_cancel await_grace try_cancel signal_proc check_identity kill_proc
program = tt

ends_gracefully : kill_proc os 31 0 config spec ≡ some ((graceful, none), 300000000)
unfolding program
ends_gracefully = refl

kill_proc_refuses_example :
    (refused : Outcome × Option KillError) × (kill_proc os 31 0 config other_spec
      ≡ some (refused, 0))
    × (at_path (lit "/bazel") ≡ proc_gone → refused ≡ (already_gone, none))
    × (at_path (lit "/bazel") ≢ proc_gone → (e : KillError) × (refused ≡ (failed, some e)))
kill_proc_refuses_example =
    kill_proc_refuses os 31 0 config other_spec refl refl (λ e. cc) (λ e. cc)
