-- ===== src/Admission/Types.antt =====
-- internal/admission/engine.go and registry.go: requests, verdicts, the policy and the view that the
-- gates have of the registry. An instant is a number of nanoseconds since Go's zero time, so that 0
-- is the zero `time.Time`; a duration is a number of nanoseconds. A processor load is a number of
-- millionths, where Go has a float64: the sums below are exact and Go's are rounded.
use bazel_broker.Common.{ℕ, ◌*◌, List, GoString, ℤ, pos, if◌then◌else◌, leb_ℤ, lit}

abbrev pub Time : Type 0
Time = ℕ

abbrev pub Duration : Type 0
Duration = ℤ

abbrev pub seconds : ℕ → Duration
seconds n = pos (n * 1000000000)

pub data Verdict : Type 0 where
  allow queue deny : Verdict

-- `Verdict.String`.
unfoldable pub verdict_string : Verdict → GoString
verdict_string allow = lit "ALLOW"
verdict_string queue = lit "QUEUE"
verdict_string deny = lit "DENY"

pub record Request : Type 0 where
  pub invocation_id : GoString
  pub worktree : GoString
  pub pid : ℤ
  pub targets : GoString

pub record Policy : Type 0 where
  pub max_concurrent : ℤ
  pub cpu_high_water : ℕ
  pub ram_pressure_max : ℤ
  pub stagger_window : Duration
  pub poll_seconds : Duration

unfoldable pub default_policy : Policy
default_policy = record {
  max_concurrent = pos 2;
  cpu_high_water = 850000;
  ram_pressure_max = pos 1;
  stagger_window = seconds 8;
  poll_seconds = seconds 25;
}

-- The poll cap that `NewEngine` takes from the policy.
unfoldable pub poll_cap : Policy → Duration
poll_cap p = if leb_ℤ p.poll_seconds (pos 0) then seconds 25 else p.poll_seconds

pub record ActiveBuild : Type 0 where
  pub invocation_id : GoString
  pub targets : List GoString
  pub pid : ℤ
  pub started_at : Time

pub record RegistrySnapshot : Type 0 where
  pub builds : List ActiveBuild
  pub recently_admitted : ℕ
