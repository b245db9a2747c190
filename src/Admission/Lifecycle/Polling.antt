-- ===== src/Admission/Lifecycle/Polling.antt =====
-- Polls that come back, releases, collections and drains.
use bazel_broker.Common.{
  ◌≡◌, refl, ap, ◌⊎◌, inl, inr, Bool, true, false, none, List, [], ◌∷◌, ◌++◌, GoString, str_eq,
  str_eq_iff, str_eq_refl, lookup, lookup-delete, Bool-cases, Option-cases, arith,
}
use bazel_broker.Admission.Types.{Time, ActiveBuild}
use bazel_broker.Admission.Semaphore.Laws.{holds, holds-sem_release}
use bazel_broker.Admission.Engine.{
  Engine, Addr, Waiter, ws_done, is_queued, write, release_gates, schedule,
}
use bazel_broker.Admission.Engine.Heap.{IsValid}
use bazel_broker.Admission.Engine.Drain.{schedule_paused}
use bazel_broker.Admission.Lifecycle.{
  release_locked, is_stale, drop_waiter, gc_loop, gc_queued, set_draining, resume,
}

-- A drain of an engine that is paused denies nobody, and resuming forgets it: the two calls together
-- do what resuming alone does.
pub resume-set_draining_paused :
    (e : Engine) (d : Bool) (now later : Time) (builds builds' : List ActiveBuild)
    → e.paused ≡ true
    → ((set_draining e d now builds).heap ≡ e.heap)
      × ((set_draining e d now builds).line ≡ e.line)
      × (resume (set_draining e d now builds) later builds' ≡ resume e later builds')
unfolding set_draining resume
resume-set_draining_paused e d now later builds builds' p =
    let still = schedule_paused (record e { draining = d }) now builds p in
    (
      ap (λ (x : Engine). x.heap) still,
      ap (λ (x : Engine). x.line) still,
      ap (λ (x : Engine). schedule (record x { paused = false; draining = false }) later builds')
          still,
    )

-- A release of an id that no waiter has changes no waiter, no queue and no slot.
release_unknown :
    (e : Engine) (id : GoString)
    → IsValid e
    → lookup id e.by_id ≡ none
    → let e' = release_gates (release_locked e id) id in
      (e'.heap ≡ e.heap)
      × (e'.line ≡ e.line)
      × (e'.by_id ≡ e.by_id)
      × ((j : GoString) → holds e'.sem j ≡ holds e.sem j)
unfolding release_locked release_gates
release_unknown e id v h =
    rw (h, release_locked, release_gates)
      (
        refl,
        refl,
        refl,
        λ j. ground (arith, v.slots j, holds-sem_release e.sem id j, str_eq_iff id j),
      )

-- A release frees the slot of the id, forgets the id and leaves every other id its slot.
pub release_frees :
    (e : Engine) (id : GoString)
    → let e' = release_gates (release_locked e id) id in
      (holds e'.sem id ≡ false)
      × (lookup id e'.by_id ≡ none)
      × ((j : GoString)
          → str_eq id j ≡ false
          → (holds e'.sem j ≡ holds e.sem j) × (lookup j e'.by_id ≡ lookup j e.by_id))
unfolding release_locked release_gates
release_frees e id = elim (Option-cases (lookup id e.by_id)) [
  | inl h ↦
      rw (h, release_locked, release_gates)
        (
          ground (arith, holds-sem_release e.sem id id, str_eq_refl id),
          h,
          λ j d. (ground (arith, holds-sem_release e.sem id j), refl),
        )
  | inr (a, h) ↦
      rw (h, release_locked, release_gates)
        (
          ground (arith, holds-sem_release e.sem id id, str_eq_refl id),
          ground (arith, lookup-delete id id e.by_id, str_eq_refl id),
          λ j d. (
            ground (arith, holds-sem_release e.sem id j),
            ground (arith, lookup-delete id j e.by_id),
          ),
        )
]

-- What the collection of stale waiters has done to `heap0` when its heap is `heap`.
abbrev Spared : Engine → Time → Addr → Waiter → Waiter → Type 0
Spared e now b w0 w =
    (w ≡ w0) ⊎ ((is_queued w0.state ≡ true) × (w0.connected ≡ false) × (w.state ≡ ws_done))

stale-disconnected :
    (e : Engine) (now : Time) (w : Waiter)
    → is_stale e now w ≡ true
    → (is_queued w.state ≡ true) × (w.connected ≡ false)
unfolding is_stale
stale-disconnected e now w h = ground arith

gc_loop_spares :
    (now : Time) (kept rest : List Addr) (e : Engine)
    → ((gc_loop now kept rest e).sem ≡ e.sem)
      × ((b : Addr) → Spared e now b (e.heap b) ((gc_loop now kept rest e).heap b))
unfolding gc_loop write
gc_loop_spares now kept [] e = (refl, λ b. inl refl)
gc_loop_spares now kept (a ∷ rest) e = elim (Bool-cases (is_stale e now (e.heap a))) [
  | inl h ↦
      let (slots, ih) = gc_loop_spares now kept rest (drop_waiter e a) in
      rw (h, gc_loop)
        (
          slots,
          λ b.
              ground
                (arith, ih b, stale-disconnected e now (e.heap a) h, ap e.heap {x = a} {y = b}),
        )
  | inr h ↦ rw (h, gc_loop) (gc_loop_spares now (kept ++ a ∷ []) rest e)
]

-- The collection of stale waiters frees no slot, and changes only waiters that are queued and have no
-- handler: an admitted waiter, and one whose client is connected, are as they were.
pub gc_queued_spares :
    (e : Engine) (now : Time)
    → ((gc_queued e now).sem ≡ e.sem)
      × ((b : Addr)
          → ((gc_queued e now).heap b ≡ e.heap b)
            ⊎ ((is_queued (e.heap b).state ≡ true)
                × ((e.heap b).connected ≡ false)
                × (((gc_queued e now).heap b).state ≡ ws_done)))
unfolding gc_queued
gc_queued_spares e now = gc_loop_spares now [] e.line e
