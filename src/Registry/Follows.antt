-- ===== src/Registry/Follows.antt =====
-- What each update of a stored build leaves as it was.
use bazel_broker.Common.{◌≡◌, refl, ap, ◌∙◌, Bool, true, false, ℤ, arith}
use bazel_broker.Admission.Types.{Time}
use bazel_broker.Build.{is_terminal, Build}
use bazel_broker.Registry.{register_merge, finish}
use bazel_broker.Registry.Upsert.{upsert_merge}
use bazel_broker.Registry.Reap.{is_missing, reap_build}

-- `new` may follow `old` in the life of one build.
pub record Follows (old new : Build) : Type 0 where
  pub same_id : new.invocation_id ≡ old.invocation_id
  pub same_start : new.start_time ≡ old.start_time
  pub stays_ended :
      is_terminal old.state ≡ true
      → (new.state ≡ old.state) × (new.end_time ≡ old.end_time) × (new.exit_code ≡ old.exit_code)

pub Follows-refl : (b : Build) → Follows b b
Follows-refl b = record { same_id = refl; same_start = refl; stays_ended = λ h. (refl, refl, refl) }

pub Follows-trans : (a b c : Build) → Follows a b → Follows b c → Follows a c
Follows-trans a b c f g = record {
  same_id = g.same_id ∙ f.same_id;
  same_start = g.same_start ∙ f.same_start;
  stays_ended = λ h.
      ground (arith, f.stays_ended h, g.stays_ended, ap is_terminal {x = b.state} {y = a.state});
}

pub register_merge-Follows : (stored b : Build) → Follows stored (register_merge stored b)
unfolding register_merge
register_merge-Follows stored b = record {
  same_id = refl;
  same_start = refl;
  stays_ended = λ h. ground arith;
}

pub upsert_merge-Follows :
    (stored b : Build) (now : Time) → Follows stored (upsert_merge stored b now)
unfolding upsert_merge
upsert_merge-Follows stored b now = record {
  same_id = refl;
  same_start = refl;
  stays_ended = λ h. ground arith;
}

pub finish-Follows :
    (b : Build) (code : ℤ) (now : Time)
    → is_terminal b.state ≡ false
    → Follows b (finish b code now)
unfolding finish
finish-Follows b code now h = record { same_id = refl; same_start = refl; stays_ended = λ k. cc }

pub reap_build-Follows :
    (seen : ℤ → Bool) (now : Time) (b : Build) → Follows b (reap_build seen now b)
unfolding reap_build is_missing
reap_build-Follows seen now b = ground arith
