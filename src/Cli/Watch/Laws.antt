-- ===== src/Cli/Watch/Laws.antt =====
-- The waits between the connections of `brokerctl watch`.
use bazel_broker.Common.{
  ℕ, ◌+◌, ◌/◌, ◌≤◌, ◌≡◌, refl, subst, Bool, true, false, Option, List, [], ◌∷◌, All, arith,
}
use bazel_broker.Cli.Watch.{
  WatchError, Backoff, half_wait, doubled, Attempt, Decision, returns, reconnects, decide,
  finish_round, run_watch,
}

-- The random parts are in their range, for the waits as the backoff grows.
abbrev pub IsJittered : Backoff → List Attempt → Type 0
IsJittered b [] = Unit {0}
IsJittered b (a ∷ more) = (a.jitter ≤ half_wait b) × IsJittered (doubled b) more

finish_round-All :
    (P : ℕ → Type 0) (d : Decision) (woken : Bool) (wait : ℕ)
    (rest : List ℕ × Option (Option WatchError))
    → P wait
    → All P rest.0
    → All P (finish_round d woken wait rest).0
unfolding finish_round
finish_round-All P (returns e) woken wait rest h k = tt
finish_round-All P reconnects true wait rest h k = tt
finish_round-All P reconnects false wait (waits, result) h k = (h, k)

-- The first wait of a backoff is within its cap, and from the cap on, not below half of it.
half_wait-le : (b : Backoff) (jitter : ℕ) → jitter ≤ half_wait b → half_wait b + jitter ≤ b.max
unfolding half_wait
half_wait-le b jitter h = ground arith

half_wait-cap : (b : Backoff) (jitter : ℕ) → b.max ≤ b.cur → b.max / 2 ≤ half_wait b + jitter
unfolding half_wait
half_wait-cap b jitter h = ground arith

doubled-cap : (b : Backoff) → b.max ≤ b.cur → (doubled b).max ≤ (doubled b).cur
unfolding doubled
doubled-cap b h = ground arith

doubled-max : (b : Backoff) → (doubled b).max ≡ b.max
unfolding doubled
doubled-max b = refl

-- No wait is longer than the cap; and from the cap on, no wait is shorter than half of it again, however
-- long the connections between them last. (The random part of a wait is at most half of it.)
pub run_watch_waits :
    (once : Bool) (b : Backoff) (attempts : List Attempt)
    → IsJittered b attempts
    → All (λ wait. wait ≤ b.max) (run_watch once b attempts).0
      × (b.max ≤ b.cur → All (λ wait. b.max / 2 ≤ wait) (run_watch once b attempts).0)
unfolding run_watch
run_watch_waits once b [] h = (tt, λ c. tt)
run_watch_waits once b (a ∷ more) (h, hs) =
    let (below, above) = run_watch_waits once (doubled b) more hs in
    let rest = run_watch once (doubled b) more in
    let wait = half_wait b + a.jitter in
    (
      finish_round-All (λ w. w ≤ b.max) (decide once a) a.woken wait rest
          (half_wait-le b a.jitter h) (subst (λ m. All (λ w. w ≤ m) rest.0) (doubled-max b) below),
      λ c.
          finish_round-All (λ w. b.max / 2 ≤ w) (decide once a) a.woken wait rest
            (half_wait-cap b a.jitter c)
            (subst (λ m. All (λ w. m / 2 ≤ w) rest.0) (doubled-max b) (above (doubled-cap b c))),
    )
