-- ===== src/Kill/Laws.antt =====
-- What the outcomes of the kill state machine say, and when it refuses to signal.
use bazel_broker.Common.{
  ℕ, zero, suc, ◌+◌, ◌≤◌, ◌≡◌, ◌≢◌, refl, Bool, true, false, ◌&&◌, Option, none, some, GoString,
  str_eq, str_eq_iff, is_empty, ltb, leb_ℤ, ℤ, pos, pos_part, if◌then◌else◌, arith,
}
use bazel_broker.Admission.Types.{Time, Duration}
use bazel_broker.Kill.{
  Signal, probe, sigkill, Errno, delivered, esrch, other_errno, PidPath, at_path, proc_gone,
  proc_unavailable, unsupported, path_failed, Os, Outcome, graceful, killed, already_gone, failed,
  KillError, signal_failed, survived, cannot_verify, identity_failed, reused, invalid_pid,
  KillConfig, KillSpec, sigkill_settle, grace_of, poll_of, Ended, pid_gone, wait_loop, wait_gone,
  escalate, graceful_signal, try_command_server_cancel, await_grace, try_cancel, signal_proc,
  check_identity, kill_proc,
}

-- What the code relies on: a signal and a path lookup do not set the clock back, and a sleep that the
-- context did not cut short lasts at least as long as it was asked to.
pub record IsTimely (os : Os) : Type 0 where
  pub kill_later : (w : os.World) (pid : ℤ) (s : Signal) → os.now w ≤ os.now (os.kill w pid s).1
  pub sleep_lasts :
      (w : os.World) (d : Duration)
      → (os.sleep w d).0 ≡ false
      → os.now w + pos_part d ≤ os.now (os.sleep w d).1

module _ (os : Os) where
  open os use {World, kill, pid_path, now, sleep}

  -- The system has answered ESRCH for the process.
  pub data Gone (pid : ℤ) : World → Type 0 where
    said_gone :
        (w w' : World) (s : Signal) → (kill w pid s).0 ≡ esrch → w' ≡ (kill w pid s).1 → Gone pid w'
    path_gone :
        (w w' : World) → (pid_path w pid).0 ≡ proc_gone → w' ≡ (pid_path w pid).1 → Gone pid w'

  -- A wait that says that the process is gone was told so.
  abbrev pub Truthful : ℤ → Option (Bool × World) → Type 0
  Truthful pid none = Unit
  Truthful pid (some (true, w)) = Gone pid w
  Truthful pid (some (false, w)) = Unit

  wait_loop-Truthful :
      (fuel : ℕ) (w : World) (pid : ℤ) (deadline : Time) (every : Duration)
      → Truthful pid (wait_loop os fuel w pid deadline every)
  unfolding wait_loop
  wait_loop-Truthful zero w pid deadline every = tt
  wait_loop-Truthful (suc fuel) w pid deadline every =
      go (kill w pid probe).0 refl (ltb (now (kill w pid probe).1) deadline)
        (sleep (kill w pid probe).1 every).0
        (wait_loop-Truthful fuel (sleep (kill w pid probe).1 every).1 pid deadline every)
    where
      go :
          (e : Errno)
          → (kill w pid probe).0 ≡ e
          → (early done : Bool)
          → Truthful pid (wait_loop os fuel (sleep (kill w pid probe).1 every).1 pid deadline every)
          → Truthful pid (elim e [
            | esrch ↦ some (true, (kill w pid probe).1)
            | other_errno ↦ some (false, (kill w pid probe).1)
            | delivered ↦ elim early [
              | false ↦ some (false, (kill w pid probe).1)
              | true ↦ elim done [
                | true ↦ some (false, (sleep (kill w pid probe).1 every).1)
                | false ↦ wait_loop os fuel (sleep (kill w pid probe).1 every).1 pid deadline every
              ]
            ]
          ])
      go esrch q early done ih = said_gone w _ probe q refl
      go other_errno q early done ih = tt
      go delivered q false done ih = tt
      go delivered q true true ih = tt
      go delivered q true false ih = ih

  -- A result that claims success is one for a process that is gone.
  abbrev pub Honest : ℤ → Ended World → Type 0
  Honest pid none = Unit
  Honest pid (some ((o, none), w)) = Gone pid w
  Honest pid (some ((o, some e), w)) = o ≡ failed

  wait_gone-Truthful :
      (fuel : ℕ) (w : World) (pid : ℤ) (budget every : Duration)
      → Truthful pid (wait_gone os fuel w pid budget every)
  unfolding wait_gone
  wait_gone-Truthful fuel w pid budget every =
      wait_loop-Truthful fuel w pid (now w + pos_part budget) every

  -- What follows a wait is honest, if it is so where the wait did not see the process go.
  after_wait-Honest :
      (pid : ℤ) (r : Option (Bool × World)) (f : Bool → World → Ended World)
      → Truthful pid r
      → ((w : World) → Gone pid w → Honest pid (f true w))
      → ((w : World) → Honest pid (f false w))
      → Honest pid (elim r [ none ↦ none | some (gone, w) ↦ f gone w ])
  after_wait-Honest pid none f t yes_case no_case = tt
  after_wait-Honest pid (some (true, w)) f t yes_case no_case = yes_case w t
  after_wait-Honest pid (some (false, w)) f t yes_case no_case = no_case w

  module _ (fuel : ℕ) (cfg : KillConfig) (pid : ℤ) where
    escalate-Honest : (w : World) → Honest pid (escalate os fuel w cfg pid)
    unfolding escalate
    escalate-Honest w = go (kill w pid sigkill).0 refl
      where
        w1 : World
        w1 = (kill w pid sigkill).1

        go :
            (e : Errno)
            → (kill w pid sigkill).0 ≡ e
            → Honest pid (elim e [
              | esrch ↦ some ((killed, none), w1)
              | other_errno ↦ some ((failed, some signal_failed), w1)
              | delivered ↦ elim (wait_gone os fuel w1 pid sigkill_settle (poll_of cfg)) [
                | none ↦ none
                | some (gone, w'') ↦
                    some (if gone then (killed, none) else (failed, some survived), w'')
              ]
            ])
        go esrch q = said_gone w _ sigkill q refl
        go other_errno q = refl
        go delivered q =
            after_wait-Honest pid (wait_gone os fuel w1 pid sigkill_settle (poll_of cfg))
              (λ gone w''. some (if gone then (killed, none) else (failed, some survived), w''))
              (wait_gone-Truthful fuel w1 pid sigkill_settle (poll_of cfg)) (λ w'' g. g)
              (λ w''. refl)

    await_grace-Honest : (w : World) → Honest pid (await_grace os fuel w cfg pid)
    unfolding await_grace
    await_grace-Honest w =
        after_wait-Honest pid
          (wait_gone os fuel (graceful_signal os w pid) pid (grace_of cfg) (poll_of cfg))
          (λ gone w'. elim gone [
            | true ↦ some ((graceful, none), w')
            | false ↦ escalate os fuel w' cfg pid
          ])
          (wait_gone-Truthful fuel (graceful_signal os w pid) pid (grace_of cfg) (poll_of cfg))
          (λ w' g. g) escalate-Honest

    try_cancel-Honest : (w : World) → Honest pid (try_cancel os fuel w cfg pid)
    unfolding try_cancel try_command_server_cancel
    try_cancel-Honest w = go cfg.use_cancel _
      where
        go :
            (asked : Bool) (x : Ended World)
            → Honest pid (if asked && false then x else await_grace os fuel w cfg pid)
        go true x = await_grace-Honest w
        go false x = await_grace-Honest w

  signal_proc-Honest :
      (fuel : ℕ) (w : World) (cfg : KillConfig) (s : KillSpec)
      → Honest s.pid (signal_proc os fuel w cfg s)
  unfolding signal_proc pid_gone
  signal_proc-Honest fuel w cfg s = go (kill w s.pid probe).0 refl s.force
    where
      w1 : World
      w1 = (kill w s.pid probe).1

      go :
          (e : Errno)
          → (kill w s.pid probe).0 ≡ e
          → (force : Bool)
          → Honest s.pid (
              let ((gone, err), w') : (Bool × Errno) × World = elim e [
                | delivered ↦ ((false, delivered), w1)
                | esrch ↦ ((true, esrch), w1)
                | other_errno ↦ ((false, other_errno), w1)
              ] in
              if gone
              then some ((already_gone, none), w')
              else if force
              then escalate os fuel w' cfg s.pid
              else try_cancel os fuel w' cfg s.pid)
      go esrch q force = said_gone w _ probe q refl
      go delivered q true = escalate-Honest fuel cfg s.pid w1
      go delivered q false = try_cancel-Honest fuel cfg s.pid w1
      go other_errno q true = escalate-Honest fuel cfg s.pid w1
      go other_errno q false = try_cancel-Honest fuel cfg s.pid w1

  check_identity-Honest :
      (w : World) (pid : ℤ) (expected : GoString) (found : PidPath)
      → (pid_path w pid).0 ≡ found
      → (next : Ended World) → Honest pid next
      → Honest pid (elim (check_identity os expected found) [
        | some refused ↦ some (refused, (pid_path w pid).1)
        | none ↦ next
      ])
  unfolding check_identity
  check_identity-Honest w pid expected proc_gone q next h = path_gone w _ q refl
  check_identity-Honest w pid expected proc_unavailable q next h = refl
  check_identity-Honest w pid expected unsupported q next h = h
  check_identity-Honest w pid expected path_failed q next h = refl
  check_identity-Honest w pid expected (at_path cur) q next h = go (str_eq cur expected)
    where
      go :
          (same : Bool)
          → Honest pid (
              let verdict : Option (Outcome × Option KillError) =
                if same then none else some (failed, some reused) in
              elim verdict [ some refused ↦ some (refused, (pid_path w pid).1) | none ↦ next ])
      go true = h
      go false = refl

  -- A kill that reports no error was told by the system, by ESRCH to a signal or by the path lookup, that
  -- the process is gone; one that reports an error has the outcome `error`.
  pub kill_proc-Honest :
      (fuel : ℕ) (w : World) (cfg : KillConfig) (s : KillSpec)
      → Honest s.pid (kill_proc os fuel w cfg s)
  unfolding kill_proc
  kill_proc-Honest fuel w cfg s = go (leb_ℤ s.pid (pos 0)) (is_empty s.expect_exe)
    where
      go :
          (invalid unnamed : Bool)
          → Honest s.pid (
              if invalid
              then some ((failed, some invalid_pid), w)
              else if unnamed
              then signal_proc os fuel w cfg s
              else elim (check_identity os s.expect_exe (pid_path w s.pid).0) [
                | some refused ↦ some (refused, (pid_path w s.pid).1)
                | none ↦ signal_proc os fuel (pid_path w s.pid).1 cfg s
              ])
      go true unnamed = refl
      go false true = signal_proc-Honest fuel w cfg s
      go false false =
          check_identity-Honest w s.pid s.expect_exe (pid_path w s.pid).0 refl _
            (signal_proc-Honest fuel (pid_path w s.pid).1 cfg s)

  -- A kill at a pid above 0 with a recorded path, where the system can look up paths and does not give
  -- the recorded one: no signal is sent, and the system is left as the lookup left it. Where the process is
  -- gone, the outcome is `already_gone` with no error; else the kill fails with an error.
  pub kill_proc_refuses :
      (fuel : ℕ) (w : World) (cfg : KillConfig) (s : KillSpec)
      → leb_ℤ s.pid (pos 0) ≡ false
      → is_empty s.expect_exe ≡ false
      → (pid_path w s.pid).0 ≢ at_path s.expect_exe
      → (pid_path w s.pid).0 ≢ unsupported
      → (refused : Outcome × Option KillError) × (kill_proc os fuel w cfg s
          ≡ some (refused, (pid_path w s.pid).1))
        × ((pid_path w s.pid).0 ≡ proc_gone → refused ≡ (already_gone, none))
        × ((pid_path w s.pid).0 ≢ proc_gone → (e : KillError) × (refused ≡ (failed, some e)))
  unfolding kill_proc check_identity
  kill_proc_refuses fuel w cfg s valid named other able = go (pid_path w s.pid).0 refl
    where
      go :
          (found : PidPath)
          → (pid_path w s.pid).0 ≡ found
          → (refused : Outcome × Option KillError) × (kill_proc os fuel w cfg s
              ≡ some (refused, (pid_path w s.pid).1))
            × ((pid_path w s.pid).0 ≡ proc_gone → refused ≡ (already_gone, none))
            × ((pid_path w s.pid).0 ≢ proc_gone → (e : KillError) × (refused ≡ (failed, some e)))
      go (at_path cur) q = (
        (failed, some reused),
        ground (arith, str_eq_iff cur s.expect_exe),
        λ g. absurd (cc),
        λ n. (reused, refl),
      )
      go proc_gone q = ((already_gone, none), ground arith, λ g. refl, λ n. absurd (n q))
      go proc_unavailable q =
          ((failed, some cannot_verify), ground arith, λ g. absurd (cc), λ n. (cannot_verify, refl))
      go unsupported q = absurd (able q)
      go path_failed q = (
        (failed, some identity_failed),
        ground arith,
        λ g. absurd (cc),
        λ n. (identity_failed, refl),
      )
