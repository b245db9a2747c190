-- ===== src/Admission/Semaphore.antt =====
-- internal/admission/gates.go: the first gate, which caps the builds that are admitted at once. The
-- set of held ids is a list that holds each once.
pub mod Laws
use bazel_broker.Common.{
  ℕ, ◌≤◌, Bool, true, false, ◌||◌, not, List, [], ◌∷◌, length, any, keep, GoString, str_eq, ℤ, pos,
  pos_part, ltb_ℤ, ltb, if◌then◌else◌,
}
use bazel_broker.Admission.Types.{Request, Duration}
use bazel_broker.Admission.Targets.{member}

pub record Semaphore : Type 0 where
  pub max : ℕ
  pub held : List GoString

-- `NewSemaphore`.
unfoldable pub new_semaphore : ℤ → Semaphore
new_semaphore max = record { max = if ltb_ℤ max (pos 1) then 1 else pos_part max; held = [] }

unfoldable pub sem_try : Semaphore → Request → Bool × Duration
sem_try s req =
    if member req.invocation_id s.held then (true, pos 0) else (ltb (length s.held) s.max, pos 0)

unfoldable pub sem_acquire : Semaphore → Request → Semaphore
sem_acquire s req =
    if member req.invocation_id s.held then s else record s { held = req.invocation_id ∷ s.held }

unfoldable pub sem_release : Semaphore → GoString → Semaphore
sem_release s id = record s { held = keep (λ x. not (str_eq x id)) s.held }

-- `Held` and `Max`.
unfoldable pub held_count : Semaphore → ℕ
held_count s = length s.held
