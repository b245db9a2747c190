-- ===== src/Admission/Reaper/Laws.antt =====
-- What a pass of the reaper leaves.
use mathlib.Core.Option.{some-injective}
use bazel_broker.Common.{
  ℕ, suc, ap, subst, ◌&&◌, some, Assoc, pos, ltb_ℤ, ◌≡◌, ◌∙◌, ◌⊎◌, inl, inr, Bool, true, false,
  none, List, [], ◌∷◌, GoString, str_eq, str_eq_iff, str_eq_refl, lookup, lookup-delete, ℤ,
  if◌then◌else◌, Bool-cases, All, arith,
}
use bazel_broker.Admission.Types.{Time, RegistrySnapshot, ActiveBuild}
use bazel_broker.Admission.Semaphore.Laws.{holds}
use bazel_broker.Admission.Engine.{
  Engine, Addr, Waiter, ws_admitted, acquire_all_gates, arm_retry_timer, turn, schedule,
}
use bazel_broker.Admission.Engine.Heap.{is_admitted, owner_admitted, IsValid}
use bazel_broker.Admission.Engine.Turns.{Ends, turns_ind, turn_cases, schedule_cases}
use bazel_broker.Admission.Lifecycle.{release}
use bazel_broker.Admission.Lifecycle.Invariant.{release-IsValid}
use bazel_broker.Admission.Lifecycle.Polling.{release_frees}
use bazel_broker.Admission.Reaper.{held_slots, release_dead, reap_dead_pids}

-- `schedule` makes no id known.
turn-unknown :
    (id : GoString) (now : Time) (a : Addr) (rest : List Addr) (snap : RegistrySnapshot)
    (e : Engine)
    → lookup id e.by_id ≡ none
    → Ends now
        (λ line snap' e'. lookup id e'.by_id ≡ none)
        (λ e'. lookup id e'.by_id ≡ none)
        a
        rest
        (turn now a snap e)
unfolding acquire_all_gates arm_retry_timer
turn-unknown id now a rest snap e h =
    turn_cases now a snap e
      (Ends now (λ line snap' e'. lookup id e'.by_id ≡ none) (λ e'. lookup id e'.by_id ≡ none) a
        rest)
      (λ q. h) (λ q d. ground (arith, lookup-delete (e.heap a).req.invocation_id id e.by_id))
      (λ q d t. h) (λ q d t. h)

schedule-unknown :
    (id : GoString) (e : Engine) (now : Time) (builds : List ActiveBuild)
    → lookup id e.by_id ≡ none
    → lookup id (schedule e now builds).by_id ≡ none
schedule-unknown id e now builds h =
    schedule_cases (λ e'. lookup id e'.by_id ≡ none) e now builds (λ _. h) (λ _. h)
      λ _.
        turns_ind now (λ line snap' e'. lookup id e'.by_id ≡ none) (λ e'. lookup id e'.by_id ≡ none)
          (λ snap e' k. k) (turn-unknown id now) e.line _ e h

release-unknown :
    (id k : GoString) (e : Engine) (now : Time) (builds : List ActiveBuild)
    → (lookup id e.by_id ≡ none) ⊎ (str_eq k id ≡ true)
    → lookup id (release e k now builds).by_id ≡ none
unfolding release
release-unknown id k e now builds h =
    let (_, gone, rest) = release_frees e k in
    schedule-unknown id _ now builds (ground (arith, gone, rest id, str_eq_iff k id, h))

release_dead-unknown :
    (alive : ℤ → Bool) (now : Time) (builds : List ActiveBuild) (held : List (GoString × ℤ))
    (id : GoString) (e : Engine)
    → lookup id e.by_id ≡ none
    → lookup id (release_dead alive now builds held e).by_id ≡ none
unfolding release_dead
release_dead-unknown alive now builds [] id e h = h
release_dead-unknown alive now builds ((k, pid) ∷ held) id e h = elim (Bool-cases (alive pid)) [
  | inl l ↦ rw (l, release_dead) (release_dead-unknown alive now builds held id e h)
  | inr d ↦
      rw (d, release_dead)
        (release_dead-unknown alive now builds held id (release e k now builds)
          (release-unknown id k e now builds (inl h)))
]

release_dead-frees :
    (alive : ℤ → Bool) (now : Time) (builds : List ActiveBuild) (held : List (GoString × ℤ))
    (e : Engine)
    → All
        (λ ((id, pid) : GoString × ℤ).
          alive pid ≡ false → lookup id (release_dead alive now builds held e).by_id ≡ none)
        held
unfolding release_dead
release_dead-frees alive now builds [] e = tt
release_dead-frees alive now builds ((k, pid) ∷ held) e = (
  λ d.
      rw (d, release_dead)
        (release_dead-unknown alive now builds held k (release e k now builds)
          (release-unknown k k e now builds (inr (str_eq_refl k)))),
  release_dead-frees alive now builds held (if alive pid then e else release e k now builds),
)

release_dead-IsValid :
    (alive : ℤ → Bool) (now : Time) (builds : List ActiveBuild) (held : List (GoString × ℤ))
    (e : Engine)
    → IsValid e
    → IsValid (release_dead alive now builds held e)
unfolding release_dead
release_dead-IsValid alive now builds [] e v = v
release_dead-IsValid alive now builds ((k, pid) ∷ held) e v = elim (Bool-cases (alive pid)) [
  | inl l ↦ rw (l, release_dead) (release_dead-IsValid alive now builds held e v)
  | inr d ↦
      rw (d, release_dead)
        (release_dead-IsValid alive now builds held (release e k now builds)
          (release-IsValid e k now builds v))
]

abbrev Unknown : (ℤ → Bool) → Engine → GoString × ℤ → Type 0
Unknown alive e (id, pid) = alive pid ≡ false → lookup id e.by_id ≡ none

-- The loop collects every admitted waiter that an id leads to and that has a pid.
held_slots-at :
    (P : GoString × ℤ → Type 0) (heap : Addr → Waiter) (m : Assoc Addr) (id : GoString) (a : Addr)
    (n : ℕ)
    → All P (held_slots heap m)
    → lookup id m ≡ some a
    → (heap a).state ≡ ws_admitted
    → (heap a).req.pid ≡ pos (suc n)
    → P (id, (heap a).req.pid)
unfolding held_slots lookup
held_slots-at P heap [] id a n all at_a st p = absurd (cc)
held_slots-at P heap ((k, b) ∷ m) id a n all at_a st p = elim (Bool-cases (str_eq k id)) [
  | inl same ↦
      let here : b ≡ a = some-injective b a (rw (same, lookup) at at_a) in
      let collected : (is_admitted (heap b).state && ltb_ℤ (pos 0) (heap b).req.pid) ≡ true =
        rw here (rw (st, p) (ground arith)) in
      let first : P (k, (heap b).req.pid) = (rw (collected, held_slots) at all).0 in
      subst (λ (x : GoString). P (x, (heap a).req.pid)) ((str_eq_iff k id).0 same)
        (subst (λ (x : Addr). P (k, (heap x).req.pid)) here first)
  | inr apart ↦
      held_slots-at P heap m id a n
        (rest (is_admitted (heap b).state && ltb_ℤ (pos 0) (heap b).req.pid) all)
        (rw (apart, lookup) at at_a) st p
]
  where
    rest :
        (c : Bool)
        → All P (if c then (k, (heap b).req.pid) ∷ held_slots heap m else held_slots heap m)
        → All P (held_slots heap m)
    rest true h = h.1
    rest false h = h

-- After a pass of the reaper the engine is valid, and every id that led to an admitted waiter with a
-- positive pid whose process is dead is unknown and holds no slot.
pub reap_dead_pids-frees :
    (e : Engine) (alive : ℤ → Bool) (now : Time) (builds : List ActiveBuild)
    → IsValid e
    → let e' = reap_dead_pids e alive now builds in
      IsValid e'
      × ((id : GoString) (a : Addr) (n : ℕ)
          → lookup id e.by_id ≡ some a
          → (e.heap a).state ≡ ws_admitted
          → (e.heap a).req.pid ≡ pos (suc n)
          → alive (pos (suc n)) ≡ false
          → (lookup id e'.by_id ≡ none) × (holds e'.sem id ≡ false))
unfolding reap_dead_pids
reap_dead_pids-frees e alive now builds v =
    let held = held_slots e.heap e.by_id in
    let e' = release_dead alive now builds held e in
    let v' = release_dead-IsValid alive now builds held e v in
    (
      v',
      λ id a n at_a st p dead.
          let gone : lookup id e'.by_id ≡ none =
            held_slots-at (Unknown alive e') e.heap e.by_id id a n
              (release_dead-frees alive now builds held e) at_a st p (ap alive p ∙ dead) in
          (gone, v'.slots id ∙ no_owner e' id gone),
    )
  where
    no_owner :
        (x : Engine) (id : GoString)
        → lookup id x.by_id ≡ none
        → owner_admitted x.by_id x.heap id ≡ false
    no_owner x id h = rw (h, owner_admitted)
