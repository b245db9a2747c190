-- ===== src/Kill.antt =====
-- internal/discovery/kill.go: the kill state machine. The operating system is a parameter: what it
-- answers to a signal, the path of a process, its clock and a sleep, over a state of its own. A sleep
-- ends early, with `true`, when the request's context is done. The loop of `waitGone` takes fuel.
pub mod Laws
pub mod Fuel
pub mod Route
mod Tests
use bazel_broker.Common.{
  ℕ, zero, suc, ◌+◌, ◌*◌, ◌≤◌, Bool, true, false, ◌&&◌, ◌||◌, not, Option, none, some, List, [],
  ◌∷◌, GoString, str_eq, is_empty, ltb, leb_ℤ, ℤ, pos, pos_part, if◌then◌else◌,
}
use bazel_broker.Admission.Types.{Time, Duration}

pub data Signal : Type 0 where
  probe sigint_group sigterm sigkill : Signal

-- What `syscall.Kill` returns: nil, ESRCH, or another error such as EPERM.
pub data Errno : Type 0 where
  delivered esrch other_errno : Errno

-- What `livePidPath` returns.
pub data PidPath : Type 0 where
  at_path : GoString → PidPath
  proc_gone proc_unavailable unsupported path_failed : PidPath

pub record Os : Type 1 where
  pub World : Type 0
  pub kill : World → ℤ → Signal → Errno × World
  pub pid_path : World → ℤ → PidPath × World
  pub now : World → Time
  pub sleep : World → Duration → Bool × World

pub data Outcome : Type 0 where
  graceful killed cancelled already_gone failed : Outcome

pub data KillError : Type 0 where
  invalid_pid cannot_verify identity_failed reused signal_failed survived : KillError

pub record KillConfig : Type 0 where
  pub grace : Duration
  pub poll_every : Duration
  pub use_cancel : Bool

pub record KillSpec : Type 0 where
  pub pid : ℤ
  pub expect_exe : GoString
  pub force : Bool

abbrev pub milli : ℕ → Duration
milli n = pos (n * 1000000)

-- `DefaultGrace`, `DefaultPoll` and `sigkillSettle`.
abbrev pub default_grace : Duration
default_grace = milli 750

abbrev pub default_poll : Duration
default_poll = milli 25

abbrev pub sigkill_settle : Duration
sigkill_settle = milli 250

-- `KillConfig.grace` and `KillConfig.poll`.
unfoldable pub grace_of : KillConfig → Duration
grace_of c = if leb_ℤ c.grace (pos 0) then default_grace else c.grace

unfoldable pub poll_of : KillConfig → Duration
poll_of c = if leb_ℤ c.poll_every (pos 0) then default_poll else c.poll_every

-- An outcome with the error of a failure, and the state that the system is left in. `none` is only the
-- end of the fuel.
abbrev pub Ended : Type 0 → Type 0
Ended W = Option ((Outcome × Option KillError) × W)

module _ (os : Os) where
  open os use {World, kill, pid_path, now, sleep}

  -- `pidGone`: whether the process is gone, and the error.
  unfoldable pub pid_gone : World → ℤ → (Bool × Errno) × World
  pid_gone w pid =
      let (e, w') = kill w pid probe in
      elim e [
        | delivered ↦ ((false, delivered), w')
        | esrch ↦ ((true, esrch), w')
        | other_errno ↦ ((false, other_errno), w')
      ]

  -- The loop of `waitGone`.
  unfoldable pub wait_loop : ℕ → World → ℤ → (deadline : Time) → Duration → Option (Bool × World)
  wait_loop zero w pid deadline every = none
  wait_loop (suc fuel) w pid deadline every =
      let (e, w1) = kill w pid probe in
      let (done, w2) = sleep w1 every in
      elim e [
        | esrch ↦ some (true, w1)
        | other_errno ↦ some (false, w1)
        | delivered ↦ elim (ltb (now w1) deadline) [
          | false ↦ some (false, w1)
          | true ↦ elim done [
            | true ↦ some (false, w2)
            | false ↦ wait_loop fuel w2 pid deadline every
          ]
        ]
      ]

  -- `waitGone`, whose budgets are positive.
  unfoldable pub wait_gone : ℕ → World → ℤ → (budget every : Duration) → Option (Bool × World)
  wait_gone fuel w pid budget every = wait_loop fuel w pid (now w + pos_part budget) every

  -- `sigkill`.
  unfoldable pub escalate : ℕ → World → KillConfig → ℤ → Ended World
  escalate fuel w cfg pid =
      let (e, w') = kill w pid sigkill in
      elim e [
        | esrch ↦ some ((killed, none), w')
        | other_errno ↦ some ((failed, some signal_failed), w')
        | delivered ↦ elim (wait_gone fuel w' pid sigkill_settle (poll_of cfg)) [
          | none ↦ none
          | some (gone, w'') ↦ some (if gone then (killed, none) else (failed, some survived), w'')
        ]
      ]

  -- `gracefulSignal`.
  unfoldable pub graceful_signal : World → ℤ → World
  graceful_signal w pid = (kill (kill w pid sigint_group).1 pid sigterm).1

  -- `tryCommandServerCancel`, which always fails: whether it succeeded.
  unfoldable pub try_command_server_cancel : ℤ → Bool
  try_command_server_cancel pid = false

  -- The steps of `killProc` after the graceful signal.
  unfoldable pub await_grace : ℕ → World → KillConfig → ℤ → Ended World
  await_grace fuel w cfg pid =
      elim (wait_gone fuel (graceful_signal w pid) pid (grace_of cfg) (poll_of cfg)) [
        | none ↦ none
        | some (gone, w') ↦ elim gone [
          | true ↦ some ((graceful, none), w')
          | false ↦ escalate fuel w' cfg pid
        ]
      ]

  -- The optional cancel, which comes before the signals.
  unfoldable pub try_cancel : ℕ → World → KillConfig → ℤ → Ended World
  try_cancel fuel w cfg pid =
      if cfg.use_cancel && try_command_server_cancel pid
      then elim (wait_gone fuel w pid (grace_of cfg) (poll_of cfg)) [
        | none ↦ none
        | some (gone, w') ↦ elim gone [
          | true ↦ some ((cancelled, none), w')
          | false ↦ await_grace fuel w' cfg pid
        ]
      ]
      else await_grace fuel w cfg pid

  -- The steps of `killProc` after the identity check.
  unfoldable pub signal_proc : ℕ → World → KillConfig → KillSpec → Ended World
  signal_proc fuel w cfg s =
      let ((gone, e), w') = pid_gone w s.pid in
      if gone
      then some ((already_gone, none), w')
      else if s.force
      then escalate fuel w' cfg s.pid
      else try_cancel fuel w' cfg s.pid

  -- The identity check of `killProc`: an outcome where it refuses.
  unfoldable pub check_identity : GoString → PidPath → Option (Outcome × Option KillError)
  check_identity expected proc_gone = some (already_gone, none)
  check_identity expected proc_unavailable = some (failed, some cannot_verify)
  check_identity expected unsupported = none
  check_identity expected path_failed = some (failed, some identity_failed)
  check_identity expected (at_path cur) =
      if str_eq cur expected then none else some (failed, some reused)

  -- `killProc`.
  unfoldable pub kill_proc : ℕ → World → KillConfig → KillSpec → Ended World
  kill_proc fuel w cfg s =
      let (found, w') = pid_path w s.pid in
      if leb_ℤ s.pid (pos 0)
      then some ((failed, some invalid_pid), w)
      else if is_empty s.expect_exe
      then signal_proc fuel w cfg s
      else elim (check_identity s.expect_exe found) [
        | some refused ↦ some (refused, w')
        | none ↦ signal_proc fuel w' cfg s
      ]
