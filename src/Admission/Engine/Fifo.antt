-- ===== src/Admission/Engine/Fifo.antt =====
-- The order in which `schedule` serves the queue, and the head that it leaves waiting.
use mathlib.Core.List.{append_assoc}
use bazel_broker.Common.{
  ◌≤◌, ◌≡◌, refl, sym, subst, ◌∙◌, ◌⊎◌, inl, inr, true, false, some, List, [], ◌∷◌, ◌++◌, length,
  str_eq_refl, lookup, insert, lookup-insert, ◌==◌, if◌then◌else◌, ltb_ℤ, leb_ℤ, pos, arith,
}
use bazel_broker.Admission.Types.{Time, Duration, Request, RegistrySnapshot, ActiveBuild}
use bazel_broker.Admission.Semaphore.Laws.{sem_try-refused}
use bazel_broker.Admission.TokenBucket.Laws.{bucket_try-refused}
use bazel_broker.Admission.Stagger.Hold.{stagger_try_hint}
use bazel_broker.Admission.Engine.{
  Engine, Addr, Waiter, ws_queued, write, try_all_gates, acquire_all_gates, arm_retry_timer, turn,
  schedule,
}
use bazel_broker.Admission.Engine.Heap.{in_line, in_line-append}
use bazel_broker.Admission.Engine.Turns.{
  Ends, turns_ind, turn_cases, schedule_cases, tried, head_req,
}

-- The queue `line0` over the heap `heap0` is served up to `line`: the waiters that are not served are untouched.
pub record Served (line0 : List Addr) (heap0 : Addr → Waiter) (line : List Addr)
    (heap : Addr → Waiter) : Type 0 where
  pub served : List Addr
  pub split : line0 ≡ served ++ line
  pub untouched : (b : Addr) → in_line b served ≡ false → heap b ≡ heap0 b

module _ (line0 : List Addr) (heap0 : Addr → Waiter) where
  serve :
      (a : Addr) (rest : List Addr) (heap heap' : Addr → Waiter)
      → Served line0 heap0 (a ∷ rest) heap
      → ((b : Addr) → (b == a) ≡ false → heap' b ≡ heap b)
      → Served line0 heap0 rest heap'
  serve a rest heap heap' s same = record {
    served = s.served ++ a ∷ [];
    split = s.split ∙ sym (append_assoc s.served (a ∷ []) rest);
    untouched = λ b h. ground (arith, in_line-append b s.served (a ∷ []), s.untouched b, same b);
  }

  turn-Served :
      (now : Time) (a : Addr) (rest : List Addr) (snap : RegistrySnapshot) (e : Engine)
      → Served line0 heap0 (a ∷ rest) e.heap
      → Ends now
          (λ line snap' e'. Served line0 heap0 line e'.heap)
          (λ e'. Served line0 heap0 e'.line e'.heap)
          a
          rest
          (turn now a snap e)
  unfolding write acquire_all_gates arm_retry_timer
  turn-Served now a rest snap e s =
      turn_cases now a snap e
        (Ends now (λ line snap' e'. Served line0 heap0 line e'.heap)
          (λ e'. Served line0 heap0 e'.line e'.heap) a rest)
        (λ h. serve a rest e.heap e.heap s (λ b d. refl))
        (λ q d. serve a rest e.heap _ s (λ b d. rw d)) (λ q d t. s)
        (λ q d t. serve a rest e.heap _ s (λ b d. rw d))

-- `schedule` is FIFO: it takes waiters off the front of the queue only, and those that it leaves in the
-- queue, behind a head that has to wait, are as they were.
pub schedule-Served :
    (e : Engine) (now : Time) (builds : List ActiveBuild)
    → Served e.line e.heap (schedule e now builds).line (schedule e now builds).heap
schedule-Served e now builds =
    schedule_cases (λ e'. Served e.line e.heap e'.line e'.heap) e now builds (λ h. start)
      (λ h. start)
      λ h.
        turns_ind now (λ line snap' e'. Served e.line e.heap line e'.heap)
          (λ e'. Served e.line e.heap e'.line e'.heap) (λ snap e' s. s)
          (turn-Served e.line e.heap now) e.line _ e start
  where
    start : Served e.line e.heap e.line e.heap
    start = record { served = []; split = refl; untouched = λ b h. refl }

-- A refusal of the gates is one of the full semaphore, or has a positive hint.
try_all_gates_hint :
    (e : Engine) (now : Time) (req : Request) (snap : RegistrySnapshot)
    → (try_all_gates e now req snap).0.0 ≡ false
    → (e.sem.max ≤ length e.sem.held) ⊎ (ltb_ℤ (pos 0) (try_all_gates e now req snap).0.1 ≡ true)
unfolding try_all_gates
try_all_gates_hint e now req snap h = ground (
  arith,
  sem_try-refused e.sem req,
  bucket_try-refused e.bucket snap.recently_admitted snap.recently_admitted,
  stagger_try_hint e.stagger now req snap.builds,
)

-- Why the head of the queue waits: the semaphore is full, or a timer of its own will call `schedule`.
abbrev pub Woken : List Addr → Engine → Type 0
Woken [] e = Unit
Woken (a ∷ rest) e =
    ((e.heap a).state ≡ ws_queued)
    × ((e.sem.max ≤ length e.sem.held)
        ⊎ ((d : Duration) × (lookup (e.heap a).req.invocation_id e.retry_timers ≡ some d)
            × (ltb_ℤ (pos 0) d ≡ true)))

turn-Woken :
    (now : Time) (a : Addr) (rest : List Addr) (snap : RegistrySnapshot) (e : Engine)
    → Unit {0}
    → Ends now (λ line snap' e'. Unit {0}) (λ e'. Woken e'.line e') a rest (turn now a snap e)
unfolding arm_retry_timer
turn-Woken now a rest snap e u =
    turn_cases now a snap e (Ends now (λ line snap' e'. Unit {0}) (λ e'. Woken e'.line e') a rest)
      (λ h. tt) (λ q d. tt)
      (λ q d t. (q, waits q (try_all_gates_hint e now (head_req now a snap e) snap t)))
      (λ q d t. tt)
  where
    retry : Duration
    retry = (tried now a snap e).0.1

    waits :
        (e.heap a).state ≡ ws_queued
        → (e.sem.max ≤ length e.sem.held) ⊎ (ltb_ℤ (pos 0) retry ≡ true)
        → (e.sem.max ≤ length e.sem.held)
          ⊎ ((d : Duration) × (lookup (e.heap a).req.invocation_id (
                  if leb_ℤ retry (pos 0)
                  then e.retry_timers
                  else insert (e.heap a).req.invocation_id retry e.retry_timers)
                ≡ some d)
              × (ltb_ℤ (pos 0) d ≡ true))
    waits q (inl full) = inl full
    waits q (inr later) =
        let id = (e.heap a).req.invocation_id in
        inr (retry, ground (arith, lookup-insert id id retry e.retry_timers, str_eq_refl id), later)

-- No wake-up is lost: after `schedule` of an engine that is not paused, the head of the queue is a
-- queued waiter, if there is one, and either no slot is free, so that a release will call `schedule`,
-- or a timer with a positive delay is armed for the head.
pub schedule-Woken :
    (e : Engine) (now : Time) (builds : List ActiveBuild)
    → e.paused ≡ false
    → Woken (schedule e now builds).line (schedule e now builds)
schedule-Woken e now builds open_gate =
    schedule_cases (λ e'. Woken e'.line e') e now builds (λ h. absurd (clash open_gate h))
      (λ h. subst (λ l. Woken l e) (sym h) tt)
      λ h.
        turns_ind now (λ line snap' e'. Unit {0}) (λ e'. Woken e'.line e') (λ snap e' u. tt)
          (turn-Woken now) e.line _ e tt
  where
    clash : e.paused ≡ false → e.paused ≡ true → ⊥
    clash p q = cc
