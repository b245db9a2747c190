-- ===== src/Kill/Fuel.antt =====
-- The fuel of the waits of the kill state machine, on a system whose clock moves on with a sleep.
use bazel_broker.Common.{
  ℕ, zero, suc, ◌+◌, ◌*◌, ◌≤◌, ◌≢◌, refl, Bool, true, false, Option, none, some, ℤ, pos_part, arith,
}
use bazel_broker.Admission.Types.{Time, Duration}
use bazel_broker.Kill.{
  probe, sigkill, Os, Outcome, KillConfig, KillSpec, sigkill_settle, grace_of, poll_of, pid_gone,
  wait_loop, wait_gone, escalate, graceful_signal, try_command_server_cancel, await_grace,
  try_cancel, signal_proc, kill_proc,
}
use bazel_broker.Kill.Laws.{IsTimely}

module _ (os : Os) (timely : IsTimely os) where
  open os use {World, kill, pid_path, now, sleep}

  wait_loop_enough :
      (fuel : ℕ) (w : World) (pid : ℤ) (deadline : Time) (every : Duration)
      → deadline ≤ now w + fuel * pos_part every
      → wait_loop os (suc fuel) w pid deadline every ≢ none
  unfolding wait_loop
  wait_loop_enough zero w pid deadline every h = ground (arith, timely.kill_later w pid probe)
  wait_loop_enough (suc fuel) w pid deadline every h =
      let w1 = (kill w pid probe).1 in
      ground (
        arith,
        timely.kill_later w pid probe,
        timely.sleep_lasts w1 every,
        wait_loop_enough fuel (sleep w1 every).1 pid deadline every,
      )

  wait_gone_enough :
      (fuel : ℕ) (w : World) (pid : ℤ) (budget every : Duration)
      → pos_part budget ≤ fuel * pos_part every
      → wait_gone os (suc fuel) w pid budget every ≢ none
  unfolding wait_gone
  wait_gone_enough fuel w pid budget every h =
      wait_loop_enough fuel w pid (now w + pos_part budget) every (omega arith)

  module _ (fuel : ℕ) (cfg : KillConfig)
      (settles : pos_part sigkill_settle ≤ fuel * pos_part (poll_of cfg))
      (graced : pos_part (grace_of cfg) ≤ fuel * pos_part (poll_of cfg)) where
    escalate_enough : (w : World) (pid : ℤ) → escalate os (suc fuel) w cfg pid ≢ none
    unfolding escalate
    escalate_enough w pid = ground (
      arith,
      wait_gone_enough fuel (kill w pid sigkill).1 pid sigkill_settle (poll_of cfg) settles,
    )

    await_grace_enough : (w : World) (pid : ℤ) → await_grace os (suc fuel) w cfg pid ≢ none
    unfolding await_grace
    await_grace_enough w pid =
        go (wait_gone os (suc fuel) (graceful_signal os w pid) pid (grace_of cfg) (poll_of cfg))
          (wait_gone_enough fuel (graceful_signal os w pid) pid (grace_of cfg) (poll_of cfg) graced)
      where
        go :
            (r : Option (Bool × World))
            → r ≢ none
            → (elim r [
              | none ↦ none
              | some (gone, w') ↦ elim gone [
                | true ↦ some ((Outcome.graceful, none), w')
                | false ↦ escalate os (suc fuel) w' cfg pid
              ]
            ])
              ≢ none
        go none h = λ e. h refl
        go (some (true, w')) h = λ e. cc
        go (some (false, w')) h = escalate_enough w' pid

    try_cancel_enough : (w : World) (pid : ℤ) → try_cancel os (suc fuel) w cfg pid ≢ none
    unfolding try_cancel try_command_server_cancel
    try_cancel_enough w pid = ground (arith, await_grace_enough w pid)

    signal_proc_enough : (w : World) (s : KillSpec) → signal_proc os (suc fuel) w cfg s ≢ none
    unfolding signal_proc pid_gone
    signal_proc_enough w s =
        let w1 = (kill w s.pid probe).1 in
        ground (arith, escalate_enough w1 s.pid, try_cancel_enough w1 s.pid)

    -- On a system whose clock moves with its sleeps, every kill ends with an outcome, if the fuel covers the
    -- polls of the grace window and of the window after SIGKILL, and one round more.
    pub kill_proc_ends : (w : World) (s : KillSpec) → kill_proc os (suc fuel) w cfg s ≢ none
    unfolding kill_proc
    kill_proc_ends w s =
        ground (arith, signal_proc_enough w s, signal_proc_enough (pid_path w s.pid).1 s)
