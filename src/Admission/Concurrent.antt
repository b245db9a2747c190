-- ===== src/Admission/Concurrent.antt =====
-- The engine's operations as the mutex lets them interleave. `Release` takes the mutex, frees the gates
-- without it, and then calls `schedule`, which takes it again; `attach`, the timers, the switches and
-- the load sampler take it twice. Here each part is a step of its own, and `schedule` a step for each turn
-- of its loop, or two where it admits: a release can free the gates in between, without the mutex.
pub mod Delivery
use bazel_broker.Common.{
  ap, Option-cases, lookup, lookup-delete, none, inl, inr, ℕ, ◌≡◌, refl, ◌∙◌, Bool, true, false,
  List, [], ◌∷◌, ◌++◌, GoString, str_eq_refl, ℤ, arith, if◌then◌else◌,
}
use bazel_broker.Admission.Types.{Request, Time, RegistrySnapshot, ActiveBuild}
use bazel_broker.Admission.TokenBucket.{set_sample}
use bazel_broker.Admission.Stagger.{stagger_gc}
use bazel_broker.Admission.Semaphore.{Semaphore, sem_try, sem_acquire, sem_release}
use bazel_broker.Admission.Semaphore.Laws.{
  Bounded, holds, holds-sem_release, sem_acquire-Bounded, sem_release-Bounded, sem_try-sem_release,
}
use bazel_broker.Admission.Engine.{
  Engine, Addr, write, acquire_all_gates, arm_retry_timer, release_gates, deny_head, admit_head,
  admitted_snap, Turn, is_queued, start_snap, turn, schedule,
}
use bazel_broker.Admission.Engine.Heap.{owner_admitted, IsValid}
use bazel_broker.Admission.Engine.Turns.{
  Ends, turns_ind, turn_cases, schedule_cases, try_all_gates-sem, head_req, tried, after_try,
}
use bazel_broker.Admission.Lifecycle.{
  attach_locked, detach, receive, release_locked, disarm, is_stale, drop_waiter, gc_loop, gc_queued,
}

-- Who has the mutex: nobody, a `schedule` between two turns of its loop, with what is left of the queue
-- and its snapshot, or one that has found the gates open for the head and has not acquired them.
pub data Lock : Type 0 where
  unlocked : Lock
  walking : List Addr → RegistrySnapshot → Lock
  open_gates : Addr → List Addr → RegistrySnapshot → Lock

-- The steps of the parts. Only a release frees the gates while another part holds the mutex. The gates
-- other than the semaphore ignore a release, so that the trial of the three gates is one step.
pub data MicroStep : Engine × Lock → Engine × Lock → Type 0 where
  attaches :
      (e : Engine) (req : Request) → MicroStep (e, unlocked) ((attach_locked e req).0, unlocked)
  enters :
      (e : Engine) (builds : List ActiveBuild)
      → e.paused ≡ false
      → MicroStep (e, unlocked) (e, walking e.line (start_snap e builds))
  skips :
      (e : Engine) (a : Addr) (rest : List Addr) (snap : RegistrySnapshot)
      → is_queued (e.heap a).state ≡ false
      → MicroStep (e, walking (a ∷ rest) snap) (e, walking rest snap)
  denies :
      (e : Engine) (a : Addr) (rest : List Addr) (snap : RegistrySnapshot)
      → is_queued (e.heap a).state ≡ true
      → e.draining ≡ true
      → MicroStep (e, walking (a ∷ rest) snap) (deny_head e a, walking rest snap)
  refuses :
      (e : Engine) (now : Time) (a : Addr) (rest : List Addr) (snap : RegistrySnapshot)
      → is_queued (e.heap a).state ≡ true
      → e.draining ≡ false
      → (tried now a snap e).0.0 ≡ false
      → MicroStep
          (e, walking (a ∷ rest) snap)
          (
            record (arm_retry_timer
                (after_try now a snap e)
                (head_req now a snap e).invocation_id
                (tried now a snap e).0.1) { line = a ∷ rest },
            unlocked,
          )
  finds_open :
      (e : Engine) (now : Time) (a : Addr) (rest : List Addr) (snap : RegistrySnapshot)
      → is_queued (e.heap a).state ≡ true
      → e.draining ≡ false
      → (tried now a snap e).0.0 ≡ true
      → MicroStep (e, walking (a ∷ rest) snap) (after_try now a snap e, open_gates a rest snap)
  admits :
      (e : Engine) (now : Time) (a : Addr) (rest : List Addr) (snap : RegistrySnapshot)
      → MicroStep
          (e, open_gates a rest snap)
          (admit_head e now a, walking rest (admitted_snap snap e now (e.heap a).req))
  leaves :
      (e : Engine) (snap : RegistrySnapshot)
      → MicroStep (e, walking [] snap) (record e { line = [] }, unlocked)
  frees_gates : (e : Engine) (id : GoString) (l : Lock) → MicroStep (e, l) (release_gates e id, l)
  receives : (e : Engine) (a : Addr) (l : Lock) → MicroStep (e, l) ((receive e a).0, l)
  detaches :
      (e : Engine) (a : Addr) (now : Time) → MicroStep (e, unlocked) (detach e a now, unlocked)
  locks_release :
      (e : Engine) (id : GoString) → MicroStep (e, unlocked) (release_locked e id, unlocked)
  disarms : (e : Engine) (id : GoString) → MicroStep (e, unlocked) (disarm e id, unlocked)
  collects : (e : Engine) (now : Time) → MicroStep (e, unlocked) (gc_queued e now, unlocked)
  collects_stagger :
      (e : Engine) (now : Time) (l : Lock)
      → MicroStep (e, l) (record e { stagger = stagger_gc e.stagger now }, l)
  pauses : (e : Engine) (p : Bool) → MicroStep (e, unlocked) (record e { paused = p }, unlocked)
  drains : (e : Engine) (d : Bool) → MicroStep (e, unlocked) (record e { draining = d }, unlocked)
  samples :
      (e : Engine) (cpu : ℕ) (ram_p : ℤ) (l : Lock)
      → MicroStep (e, l) (record e { bucket = set_sample e.bucket cpu ram_p }, l)
  resets_ramp :
      (e : Engine) → MicroStep (e, unlocked) (record e { recently_admitted = 0 }, unlocked)

pub data MicroReach (s : Engine × Lock) : Engine × Lock → Type 0 where
  here : MicroReach s s
  next : {t u : Engine × Lock} → MicroReach s t → MicroStep t u → MicroReach s u

abbrev Walked : Engine × Lock → Time → Addr → List Addr → Turn → Type 0
Walked s now a rest t =
    Ends now (λ line snap e. MicroReach s (e, walking line snap)) (λ e. MicroReach s (e, unlocked))
      a rest t

turn-MicroReach :
    (s : Engine × Lock) (now : Time) (a : Addr) (rest : List Addr) (snap : RegistrySnapshot)
    (e : Engine)
    → MicroReach s (e, walking (a ∷ rest) snap)
    → Walked s now a rest (turn now a snap e)
turn-MicroReach s now a rest snap e r =
    turn_cases now a snap e (Walked s now a rest) (λ h. next r (skips e a rest snap h))
      (λ q d. next r (denies e a rest snap (ap is_queued q) d))
      (λ q d t. next r (refuses e now a rest snap (ap is_queued q) d t))
      (λ q d t.
        next (next r (finds_open e now a rest snap (ap is_queued q) d t))
          (admits (after_try now a snap e) now a rest snap))

-- A `schedule` that nothing interrupts is a run of its parts.
pub schedule-MicroReach :
    (s : Engine × Lock) (e : Engine) (now : Time) (builds : List ActiveBuild)
    → MicroReach s (e, unlocked)
    → MicroReach s (schedule e now builds, unlocked)
schedule-MicroReach s e now builds r =
    schedule_cases (λ f. MicroReach s (f, unlocked)) e now builds (λ _. r) (λ _. r)
      λ running.
        turns_ind now (λ line snap f. MicroReach s (f, walking line snap))
          (λ f. MicroReach s (f, unlocked)) (λ snap f w. next w (leaves f snap))
          (turn-MicroReach s now) e.line _ e (next r (enters e builds running))

-- The slots of `s` are those of a semaphore whose limit is `max`.
abbrev pub Within : ℕ → Semaphore → Type 0
Within max s = Bounded s × (s.max ≡ max)

-- What was found open stays open: nothing acquires in between.
abbrev StillOpen : Engine → Lock → Type 0
StillOpen e unlocked = Unit
StillOpen e (walking line snap) = Unit
StillOpen e (open_gates a rest snap) = (sem_try e.sem (e.heap a).req).0 ≡ true

sem-attach_locked : (e : Engine) (req : Request) → (attach_locked e req).0.sem ≡ e.sem
unfolding attach_locked
sem-attach_locked e req = ground arith

sem-release_locked : (e : Engine) (id : GoString) → (release_locked e id).sem ≡ e.sem
unfolding release_locked
sem-release_locked e id = ground arith

sem-drop_if :
    (e : Engine) (a : Addr) (stale : Bool) → (if stale then drop_waiter e a else e).sem ≡ e.sem
sem-drop_if e a true = refl
sem-drop_if e a false = refl

sem-gc_loop :
    (now : Time) (kept rest : List Addr) (e : Engine) → (gc_loop now kept rest e).sem ≡ e.sem
unfolding gc_loop
sem-gc_loop now kept [] e = refl
sem-gc_loop now kept (a ∷ rest) e =
    let stale = is_stale e now (e.heap a) in
    sem-gc_loop now (if stale then kept else kept ++ a ∷ []) rest
      (if stale then drop_waiter e a else e)
    ∙ sem-drop_if e a stale

-- The slots and the trial of the head after a step that changes neither the semaphore nor the requests.
abbrev Guarded : ℕ → Engine × Lock → Type 0
Guarded max (e, l) = Within max e.sem × StillOpen e l

release-StillOpen :
    (e : Engine) (id : GoString) (l : Lock)
    → Bounded e.sem
    → StillOpen e l
    → StillOpen (release_gates e id) l
unfolding release_gates
release-StillOpen e id unlocked b h = tt
release-StillOpen e id (walking line snap) b h = tt
release-StillOpen e id (open_gates a rest snap) b h =
    sem_try-sem_release e.sem id (e.heap a).req b h

receive-StillOpen : (e : Engine) (a : Addr) (l : Lock) → StillOpen e l → StillOpen (receive e a).0 l
unfolding receive write
receive-StillOpen e a unlocked h = tt
receive-StillOpen e a (walking line snap) h = tt
receive-StillOpen e a (open_gates b rest snap) h = ground (arith, ap e.heap {x = b} {y = a})

same-StillOpen :
    (e f : Engine) (l : Lock) → f.sem ≡ e.sem → f.heap ≡ e.heap → StillOpen e l → StillOpen f l
same-StillOpen e f unlocked p q h = tt
same-StillOpen e f (walking line snap) p q h = tt
same-StillOpen e f (open_gates a rest snap) p q h = rw (p, q) h

MicroStep-Guarded : (max : ℕ) {s t : Engine × Lock} → MicroStep s t → Guarded max s → Guarded max t
unfolding detach release_gates disarm gc_queued acquire_all_gates arm_retry_timer
MicroStep-Guarded max (attaches e req) (w, o) = (rw (sem-attach_locked e req) w, tt)
MicroStep-Guarded max (enters e builds running) (w, o) = (w, tt)
MicroStep-Guarded max (skips e a rest snap q) (w, o) = (w, tt)
MicroStep-Guarded max (denies e a rest snap q d) (w, o) = (w, tt)
MicroStep-Guarded max (refuses e now a rest snap q d t) (w, o) = (w, tt)
MicroStep-Guarded max (finds_open e now a rest snap q d t) (w, o) =
    (w, try_all_gates-sem e now (e.heap a).req snap t)
MicroStep-Guarded max (admits e now a rest snap) ((b, m), o) =
    ((sem_acquire-Bounded e.sem (e.heap a).req b o, same_max e.sem (e.heap a).req ∙ m), tt)
  where
    same_max : (s : Semaphore) (req : Request) → (sem_acquire s req).max ≡ s.max
    same_max s req = unfold sem_acquire in ground arith
MicroStep-Guarded max (leaves e snap) (w, o) = (w, tt)
MicroStep-Guarded max (frees_gates e id l) ((b, m), o) =
    ((sem_release-Bounded e.sem id b, unfold sem_release in m), release-StillOpen e id l b o)
MicroStep-Guarded max (receives e a l) (w, o) = (unfold receive in w, receive-StillOpen e a l o)
MicroStep-Guarded max (detaches e a now) (w, o) = (w, tt)
MicroStep-Guarded max (locks_release e id) (w, o) = (rw (sem-release_locked e id) w, tt)
MicroStep-Guarded max (disarms e id) (w, o) = (w, tt)
MicroStep-Guarded max (collects e now) (w, o) = (rw (sem-gc_loop now [] e.line e) w, tt)
MicroStep-Guarded max (collects_stagger e now l) (w, o) =
    (w, same-StillOpen e (record e { stagger = stagger_gc e.stagger now }) l refl refl o)
MicroStep-Guarded max (pauses e p) (w, o) = (w, tt)
MicroStep-Guarded max (drains e d) (w, o) = (w, tt)
MicroStep-Guarded max (samples e cpu ram_p l) (w, o) =
    (w, same-StillOpen e (record e { bucket = set_sample e.bucket cpu ram_p }) l refl refl o)
MicroStep-Guarded max (resets_ramp e) (w, o) = (w, tt)

MicroReach-Guarded :
    (max : ℕ) {s t : Engine × Lock} → MicroReach s t → Guarded max s → Guarded max t
MicroReach-Guarded max here g = g
MicroReach-Guarded max (next r st) g = MicroStep-Guarded max st (MicroReach-Guarded max r g)

-- However the parts of the operations interleave, with gates that are freed between the turns of a
-- `schedule` or between its trial of the gates and its acquisition of them: from an engine whose mutex is
-- free, the semaphore never holds more slots than its limit, and the limit stays.
pub MicroReach-Within :
    (max : ℕ) (e f : Engine) (l : Lock)
    → MicroReach (e, unlocked) (f, l)
    → Within max e.sem
    → Within max f.sem
MicroReach-Within max e f l r w = (MicroReach-Guarded max r (w, tt)).0

-- One run after another.
pub append_run : {s t u : Engine × Lock} → MicroReach s t → MicroReach t u → MicroReach s u
append_run r here = r
append_run r (next q st) = next (append_run r q) st

forgets : (e : Engine) (id : GoString) → lookup id (release_locked e id).by_id ≡ none
unfolding release_locked
forgets e id = elim (Option-cases (lookup id e.by_id)) [
  | inl h ↦ rw (h, release_locked) h
  | inr (a, h) ↦
      rw (h, release_locked) (ground (arith, lookup-delete id id e.by_id, str_eq_refl id))
]

-- A release of an admitted build whose part under the mutex has been done makes its id unknown. Whatever
-- runs then until the id is admitted again, the part that frees the gates takes away the slot of the new
-- admission: that is a run of the parts, at whose end the build counts as admitted and holds no slot.
pub frees_gates_late :
    (e f : Engine) (l : Lock) (id : GoString)
    → owner_admitted e.by_id e.heap id ≡ true
    → MicroReach (release_locked e id, unlocked) (f, l)
    → owner_admitted f.by_id f.heap id ≡ true
    → (lookup id (release_locked e id).by_id ≡ none)
      × MicroReach (e, unlocked) (release_gates f id, l)
      × (owner_admitted (release_gates f id).by_id (release_gates f id).heap id ≡ true)
      × (holds (release_gates f id).sem id ≡ false)
      × ¬ IsValid (release_gates f id)
frees_gates_late e f l id before r again = (
  forgets e id,
  next (append_run (next here (locks_release e id)) r) (frees_gates f id l),
  unfold release_gates in again,
  no_slot,
  λ v. absurd (clash (v.slots id) no_slot (unfold release_gates in again)),
)
  where
    no_slot : holds (release_gates f id).sem id ≡ false
    no_slot = unfold release_gates in ground (arith, holds-sem_release f.sem id id, str_eq_refl id)

    clash : {x y : Bool} → x ≡ y → x ≡ false → y ≡ true → ⊥
    clash p q t = cc
