-- ===== src/Admission/TokenBucket/Laws.antt =====
-- When the token bucket admits.
use bazel_broker.Common.{ℕ, ◌+◌, ◌*◌, ◌≤◌, ◌<◌, ◌≡◌, ◌⊎◌, ◌↔◌, true, false, pos, ◌≤ℤ◌, arith}
use bazel_broker.Admission.TokenBucket.{TokenBucket, bucket_try, ramp_per_head}

-- The bucket admits exactly when the load gate is off or the load with the reserve for `n` recent
-- admissions is below the mark, and the memory gate is off or the pressure is not above its limit.
bucket_try_iff :
    (t : TokenBucket) (n : ℕ)
    → ((bucket_try t n).0 ≡ true) ↔ (
        ((t.cpu_hi ≡ 0) ⊎ (t.cpu + n * ramp_per_head < t.cpu_hi))
        × ((t.ram_pmax ≤ℤ pos 0) ⊎ (t.ram_p ≤ℤ t.ram_pmax)))
unfolding bucket_try
bucket_try_iff t n = (λ h. ground arith, λ h. ground arith)

-- A refusal always carries a positive hint, and with more recent admissions it stays a refusal.
pub bucket_try-refused :
    (t : TokenBucket) (m n : ℕ)
    → m ≤ n
    → (bucket_try t m).0 ≡ false
    → ((bucket_try t n).0 ≡ false) × ((bucket_try t n).1 ≡ pos 2000000000)
unfolding bucket_try
bucket_try-refused t m n le h = ground arith
