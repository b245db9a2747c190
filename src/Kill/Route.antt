-- ===== src/Kill/Route.antt =====
-- internal/discovery/killer.go: the handler of POST /builds/{invocation_id}/kill, over the registry and the
-- system. `freshen` is the reconciliation on demand, whose error is only logged; `none` is only the end of
-- the fuel of the kill state machine. A body that is no JSON leaves its fields unset.
pub mod Laws
mod Tests
use bazel_broker.Common.{
  ℕ, Bool, true, false, ◌||◌, Option, none, some, GoString, is_empty, lit, ℤ, pos, leb_ℤ, sub_ℕ,
  if◌then◌else◌,
}
use bazel_broker.Admission.Types.{Time}
use bazel_broker.Build.{Build, milliseconds}
use bazel_broker.Registry.{Registry, get_build}
use bazel_broker.Kill.{Os, Outcome, failed, KillError, KillConfig, KillSpec, Ended, kill_proc}

pub record KillRequest : Type 0 where
  pub invocation_id : GoString
  pub force : Bool
  pub use_cancel : Bool

-- `api.KillResult`.
pub record KillResult : Type 0 where
  pub is_killed : Bool
  pub invocation_id : GoString
  pub pid : ℤ
  pub outcome : Outcome
  pub elapsed_ms : ℤ

pub data KillResponse : Type 0 where
  write_kill_error : (status : ℕ) → (code : GoString) → KillResponse
  write_kill : (status : ℕ) → KillResult → KillResponse

abbrev is_failed : Outcome → Bool
is_failed failed = true
is_failed _ = false

-- What the handler makes of the end of `killProc`.
unfoldable pub kill_response :
    GoString → (pid elapsed : ℤ) → Outcome → Option KillError → KillResponse
kill_response id pid elapsed o (some e) = write_kill 500 (record {
  is_killed = false;
  invocation_id = id;
  pid = pid;
  outcome = failed;
  elapsed_ms = elapsed;
})
kill_response id pid elapsed o none = write_kill 200 (record {
  is_killed = if is_failed o then false else true;
  invocation_id = id;
  pid = pid;
  outcome = o;
  elapsed_ms = elapsed;
})

module _ (os : Os) where
  -- The registry and the system.
  abbrev pub Machine : Type 0
  Machine = Registry × os.World

  unfoldable pub freshened : Option (Machine → Machine) → Machine → Machine
  freshened none s = s
  freshened (some f) s = f s

  -- The end of the handler, given the instant before the kill.
  unfoldable pub answer_kill :
      Registry
      → GoString
      → (pid : ℤ) → (start : Time) → Ended os.World
      → Option (KillResponse × Machine)
  answer_kill r id pid start none = none
  answer_kill r id pid start (some ((o, err), w)) =
      some (kill_response id pid (milliseconds (sub_ℕ (os.now w) start)) o err, (r, w))

  -- The steps of the handler from the build on.
  unfoldable pub kill_build :
      ℕ → Machine → KillConfig → KillRequest → Build → Option (KillResponse × Machine)
  kill_build fuel (r, w) cfg req b =
      let config = record cfg { use_cancel = cfg.use_cancel || req.use_cancel } in
      let spec : KillSpec = record { pid = b.pid; expect_exe = b.exe_path; force = req.force } in
      if leb_ℤ b.pid (pos 0)
      then some (write_kill_error 409 (lit "no_pid"), (r, w))
      else answer_kill r req.invocation_id b.pid (os.now w) (kill_proc os fuel w config spec)

  -- `Killer.Kill`.
  unfoldable pub kill_route :
      ℕ
      → Machine
      → KillConfig
      → Option (Machine → Machine)
      → KillRequest
      → Option (KillResponse × Machine)
  kill_route fuel s cfg freshen req =
      if is_empty req.invocation_id
      then some (write_kill_error 400 (lit "bad_request"), s)
      else elim (get_build (freshened freshen s).0 req.invocation_id) [
        | none ↦ some (write_kill_error 404 (lit "not_found"), freshened freshen s)
        | some b ↦ kill_build fuel (freshened freshen s) cfg req b
      ]
