-- ===== src/Admission/Semaphore/Laws.antt =====
-- The slots of the semaphore.
use bazel_broker.Common.{
  ◌≤◌, ◌≡◌, suc, inl, inr, Bool-cases, ap, Bool, true, false, ◌&&◌, ◌||◌, not, List, [], ◌∷◌,
  length, keep, length-keep-le, GoString, str_eq, str_eq_iff, ℤ, arith,
}
use bazel_broker.Admission.Types.{Request}
use bazel_broker.Admission.Targets.{member}
use bazel_broker.Admission.Semaphore.{Semaphore, new_semaphore, sem_try, sem_acquire, sem_release}

-- At most `max` slots, of which there is one at least.
pub record Bounded (s : Semaphore) : Type 0 where
  pub positive : 1 ≤ s.max
  pub within : length s.held ≤ s.max

pub new_semaphore-Bounded : (max : ℤ) → Bounded (new_semaphore max)
unfolding new_semaphore
new_semaphore-Bounded max = ground arith

pub sem_acquire-Bounded :
    (s : Semaphore) (req : Request)
    → Bounded s
    → (sem_try s req).0 ≡ true
    → Bounded (sem_acquire s req)
unfolding sem_try sem_acquire
sem_acquire-Bounded s req b h = ground arith

pub sem_release-Bounded : (s : Semaphore) (id : GoString) → Bounded s → Bounded (sem_release s id)
unfolding sem_release
sem_release-Bounded s id b = record {
  positive = b.positive;
  within = omega (arith, length-keep-le (λ x. not (str_eq x id)) s.held, b.within);
}

-- A full semaphore refuses exactly the ids that it does not hold.
pub sem_try-full :
    (s : Semaphore) (req : Request)
    → s.max ≤ length s.held
    → (sem_try s req).0 ≡ member req.invocation_id s.held
unfolding sem_try
sem_try-full s req h = ground arith

pub sem_try-refused :
    (s : Semaphore) (req : Request) → (sem_try s req).0 ≡ false → s.max ≤ length s.held
unfolding sem_try
sem_try-refused s req h = ground arith

holds-keep :
    (id j : GoString) (held : List GoString)
    → member j (keep (λ x. not (str_eq x id)) held) ≡ (not (str_eq id j) && member j held)
unfolding member
holds-keep id j [] = ground arith
holds-keep id j (x ∷ held) =
    ground (arith, str_eq_iff x id, str_eq_iff x j, str_eq_iff id j, holds-keep id j held)

length-keep-member :
    (id : GoString) (held : List GoString)
    → member id held ≡ true
    → suc (length (keep (λ x. not (str_eq x id)) held)) ≤ length held
unfolding member
length-keep-member id [] h = absurd (cc)
length-keep-member id (x ∷ held) h = elim (Bool-cases (str_eq x id)) [
  | inl same ↦ rw same (omega (arith, length-keep-le (λ y. not (str_eq y id)) held))
  | inr apart ↦ ground (arith, length-keep-member id held)
]

-- A release refuses nobody whom the semaphore would have let in.
pub sem_try-sem_release :
    (s : Semaphore) (id : GoString) (req : Request)
    → Bounded s
    → (sem_try s req).0 ≡ true
    → (sem_try (sem_release s id) req).0 ≡ true
unfolding sem_try sem_release
sem_try-sem_release s id req b h = elim (Bool-cases (member req.invocation_id s.held)) [
  | inl is_held ↦ elim (Bool-cases (str_eq id req.invocation_id)) [
    | inl same ↦ ground (
      arith,
      length-keep-member id s.held,
      (str_eq_iff id req.invocation_id).0 same,
      ap (λ x. member x s.held) {x = id} {y = req.invocation_id},
      b.within,
    )
    | inr apart ↦ ground (arith, holds-keep id req.invocation_id s.held)
  ]
  | inr free ↦ ground (arith, length-keep-le (λ x. not (str_eq x id)) s.held, b.within)
]

-- Whether an id holds a slot.
unfoldable pub holds : Semaphore → GoString → Bool
holds s id = member id s.held

pub holds-sem_acquire :
    (s : Semaphore) (req : Request) (j : GoString)
    → holds (sem_acquire s req) j ≡ (str_eq req.invocation_id j || holds s j)
unfolding holds sem_acquire member
holds-sem_acquire s req j = ground (
  arith,
  str_eq_iff req.invocation_id j,
  λ (e : req.invocation_id ≡ j). ap (λ x. member x s.held) e,
)

pub holds-sem_release :
    (s : Semaphore) (id j : GoString)
    → holds (sem_release s id) j ≡ (not (str_eq id j) && holds s j)
unfolding holds sem_release
holds-sem_release s id j = holds-keep id j s.held
