-- ===== src/Admission/Engine/Drain.antt =====
-- What `schedule` does to the queue of an engine that drains or is paused, and to pending verdicts.
use bazel_broker.Common.{◌≡◌, refl, ◌⊎◌, true, false, List}
use bazel_broker.Admission.Types.{deny, Time, ActiveBuild}
use bazel_broker.Admission.Engine.{Engine, Addr, Waiter, ws_done, is_queued, deliver, schedule}
use bazel_broker.Admission.Engine.Heap.{in_line}
use bazel_broker.Admission.Engine.Turns.{schedule_cases}

-- The waiter was queued in `heap0`, and has been denied.
abbrev pub Denied : (heap0 heap : Addr → Waiter) → Addr → Type 0
Denied heap0 heap b = ((heap b).state ≡ ws_done) × ((heap b).ch ≡ (deliver (heap0 b) deny).ch)

-- What a drain has done to `e0` when `line` is left of its queue `line0`.
pub record Draining (line0 : List Addr) (e0 : Engine) (line : List Addr) (e : Engine) : Type 0 where
  pub draining : e.draining ≡ true
  pub same_slots : e.sem ≡ e0.sem
  pub each : (b : Addr) → (e.heap b ≡ e0.heap b) ⊎ Denied e0.heap e.heap b
  pub passed :
      (b : Addr)
      → in_line b line0 ≡ true
      → in_line b line ≡ false
      → is_queued (e.heap b).state ≡ false

-- `schedule` does nothing while the engine is paused.
pub schedule_paused :
    (e : Engine) (now : Time) (builds : List ActiveBuild)
    → e.paused ≡ true
    → schedule e now builds ≡ e
schedule_paused e now builds p =
    schedule_cases (λ e'. e' ≡ e) e now builds (λ h. refl) (λ h. refl) (λ h. absurd (clash h))
  where
    clash : e.paused ≡ false → ⊥
    clash q = cc
