-- ===== src/Admission/TokenBucket.antt =====
-- internal/admission/gates.go: the second gate, which holds admissions while the machine is hot.
pub mod Laws
use bazel_broker.Common.{
  ℕ, ◌+◌, ◌*◌, Bool, true, false, ◌&&◌, ℤ, pos, ltb, leb, ltb_ℤ, if◌then◌else◌,
}
use bazel_broker.Admission.Types.{Duration, seconds}

pub record TokenBucket : Type 0 where
  pub cpu_hi : ℕ
  pub ram_pmax : ℤ
  pub cpu : ℕ
  pub ram_p : ℤ

-- `rampPerHead`, 0.10.
abbrev pub ramp_per_head : ℕ
ramp_per_head = 100000

-- `NewTokenBucket`.
unfoldable pub new_token_bucket : ℕ → ℤ → TokenBucket
new_token_bucket cpu_hi ram_pmax = record {
  cpu_hi = cpu_hi;
  ram_pmax = ram_pmax;
  cpu = 0;
  ram_p = pos 1;
}

unfoldable pub set_sample : TokenBucket → ℕ → ℤ → TokenBucket
set_sample t cpu ram_p = record t { cpu = cpu; ram_p = ram_p }

unfoldable pub bucket_try : TokenBucket → (recently_admitted : ℕ) → Bool × Duration
bucket_try t recently_admitted =
    let eff_cpu = t.cpu + recently_admitted * ramp_per_head in
    if ltb 0 t.cpu_hi && leb t.cpu_hi eff_cpu
    then (false, seconds 2)
    else if ltb_ℤ (pos 0) t.ram_pmax && ltb_ℤ t.ram_pmax t.ram_p
    then (false, seconds 2)
    else (true, pos 0)
