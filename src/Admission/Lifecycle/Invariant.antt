-- ===== src/Admission/Lifecycle/Invariant.antt =====
-- The operations of the engine as events, their histories, and the invariant.
use mathlib.Core.List.{append_assoc}
use bazel_broker.Common.{
  ℕ, ◌≡◌, refl, sym, ap, ◌∙◌, inl, inr, Bool, true, List, [], ◌∷◌, ◌++◌, GoString, lookup, ℤ,
  Bool-cases, Option-cases, arith,
}
use bazel_broker.Admission.Types.{Request, Policy, Time, ActiveBuild}
use bazel_broker.Admission.Semaphore.{new_semaphore}
use bazel_broker.Admission.Semaphore.Laws.{holds, new_semaphore-Bounded}
use bazel_broker.Admission.Targets.{member}
use bazel_broker.Admission.Stagger.{stagger_gc}
use bazel_broker.Admission.Engine.{
  Engine, Addr, Waiter, ws_done, is_queued, write, new_engine, release_gates,
}
use bazel_broker.Admission.Engine.Heap.{
  in_line, in_line-append, InvOf, IsValid, shorten-Inv, touch-Inv, drop-Inv, release-Inv, join-Inv,
  release_unknown-Inv,
}
use bazel_broker.Admission.Engine.Turns.{schedule-IsValid, write_self, queued-eq}
use bazel_broker.Admission.Lifecycle.{
  attach_locked, attach, detach, receive, release_locked, release, disarm, retry_fires, is_stale,
  drop_waiter, gc_loop, gc_queued, set_paused, set_draining, resume, on_load_sample, refresh,
}

new_engine-IsValid : (policy : Policy) → IsValid (new_engine policy)
unfolding new_engine new_semaphore holds member lookup
new_engine-IsValid policy = record {
  slots_bounded = new_semaphore-Bounded policy.max_concurrent;
  slots = λ id. refl;
  known_fresh = λ id a k. cc;
  known_named = λ id a k. cc;
  known_queued = λ id a k q. cc;
  line_fresh = λ a m. cc;
  line_known = λ a m q. cc;
}

attach_locked-IsValid : (e : Engine) (req : Request) → IsValid e → IsValid (attach_locked e req).0
unfolding attach_locked refresh
attach_locked-IsValid e req v = elim (Option-cases (lookup req.invocation_id e.by_id)) [
  | inl h ↦ rw (h, attach_locked) (join-Inv v e.next _ req.invocation_id refl h refl refl)
  | inr (a, h) ↦ rw (h, attach_locked) (touch-Inv v a _ refl refl)
]

attach-IsValid :
    (e : Engine) (req : Request) (now : Time) (builds : List ActiveBuild)
    → IsValid e
    → IsValid (attach e req now builds).0
unfolding attach
attach-IsValid e req now builds v = schedule-IsValid _ now builds (attach_locked-IsValid e req v)

detach-IsValid : (e : Engine) (a : Addr) (now : Time) → IsValid e → IsValid (detach e a now)
unfolding detach
detach-IsValid e a now v = touch-Inv v a _ refl refl

receive-IsValid : (e : Engine) (a : Addr) → IsValid e → IsValid (receive e a).0
unfolding receive
receive-IsValid e a v = touch-Inv v a _ refl refl

-- Both parts of `Release` together keep the invariant.
freed-IsValid :
    (e : Engine) (id : GoString) → IsValid e → IsValid (release_gates (release_locked e id) id)
unfolding release_locked release_gates
freed-IsValid e id v = elim (Option-cases (lookup id e.by_id)) [
  | inl h ↦ rw (h, release_locked, release_gates) (release_unknown-Inv v id h)
  | inr (a, h) ↦ rw (h, release_locked, release_gates) (release-Inv v a _ id h refl)
]

pub release-IsValid :
    (e : Engine) (id : GoString) (now : Time) (builds : List ActiveBuild)
    → IsValid e
    → IsValid (release e id now builds)
unfolding release
release-IsValid e id now builds v = schedule-IsValid _ now builds (freed-IsValid e id v)

is_stale-queued :
    (e : Engine) (now : Time) (w : Waiter) → is_stale e now w ≡ true → is_queued w.state ≡ true
unfolding is_stale
is_stale-queued e now w h = ground arith

gc_loop-IsValid :
    (now : Time) (kept rest : List Addr) (e : Engine)
    → InvOf (kept ++ rest) e
    → IsValid (gc_loop now kept rest e)
unfolding gc_loop
gc_loop-IsValid now kept [] e v =
    shorten-Inv v kept (λ b m. ground (arith, in_line-append b kept []))
      (λ b m q. ground (arith, in_line-append b kept []))
gc_loop-IsValid now kept (a ∷ rest) e v = elim (Bool-cases (is_stale e now (e.heap a))) [
  | inl h ↦ rw (h, gc_loop) (gc_loop-IsValid now kept rest (drop_waiter e a) (dropped h))
  | inr h ↦ rw (h, gc_loop) (gc_loop-IsValid now (kept ++ a ∷ []) rest e moved)
]
  where
    here : in_line a (kept ++ a ∷ rest) ≡ true
    here = ground (arith, in_line-append a kept (a ∷ rest))

    dropped : is_stale e now (e.heap a) ≡ true → InvOf (kept ++ rest) (drop_waiter e a)
    dropped h =
        shorten-Inv
          (drop-Inv v a (record (e.heap a) { state = ws_done }) here
            (queued-eq _ (is_stale-queued e now (e.heap a) h)) refl)
          (kept ++ rest)
          (λ b m. ground (arith, in_line-append b kept (a ∷ rest), in_line-append b kept rest))
          (λ b m q. ground (
            arith,
            in_line-append b kept (a ∷ rest),
            in_line-append b kept rest,
            ap (λ (w : Waiter). w.state)
                (write_self e.heap a (record (e.heap a) { state = ws_done })),
            ap (λ (x : Addr). (write e.heap a (record (e.heap a) { state = ws_done }) x).state)
                {x = a} {y = b},
          ))

    regroup : (b : Addr) → in_line b (kept ++ a ∷ rest) ≡ in_line b ((kept ++ a ∷ []) ++ rest)
    regroup b = sym (ap (in_line b) (append_assoc kept (a ∷ []) rest))

    moved : InvOf ((kept ++ a ∷ []) ++ rest) e
    moved =
        shorten-Inv v ((kept ++ a ∷ []) ++ rest) (λ b m. regroup b ∙ m)
          (λ b m q. sym (regroup b) ∙ m)

gc_queued-IsValid : (e : Engine) (now : Time) → IsValid e → IsValid (gc_queued e now)
unfolding gc_queued
gc_queued-IsValid e now v = gc_loop-IsValid now [] e.line e v

-- What can happen to an engine: the calls of its handlers and of its background loops.
pub data Event : Type 0 where
  polls : Request → Time → List ActiveBuild → Event
  takes : Addr → Event
  leaves : Addr → Time → Event
  releases fires : GoString → Time → List ActiveBuild → Event
  collects collects_stagger : Time → Event
  pauses drains : Bool → Time → List ActiveBuild → Event
  resumes : Time → List ActiveBuild → Event
  samples : (cpu : ℕ) (ram_p : ℤ) → Time → List ActiveBuild → Event

unfoldable pub handle : Engine → Event → Engine
handle e (polls req now builds) = (attach e req now builds).0
handle e (takes a) = (receive e a).0
handle e (leaves a now) = detach e a now
handle e (releases id now builds) = release e id now builds
handle e (fires id now builds) = retry_fires e id now builds
handle e (collects now) = gc_queued e now
handle e (collects_stagger now) = record e { stagger = stagger_gc e.stagger now }
handle e (pauses p now builds) = set_paused e p now builds
handle e (drains d now builds) = set_draining e d now builds
handle e (resumes now builds) = resume e now builds
handle e (samples cpu ram_p now builds) = on_load_sample e cpu ram_p now builds

unfoldable pub run : Engine → List Event → Engine
run e [] = e
run e (ev ∷ evs) = run (handle e ev) evs

pub handle-IsValid : (e : Engine) (ev : Event) → IsValid e → IsValid (handle e ev)
unfolding handle retry_fires disarm set_paused set_draining resume on_load_sample
handle-IsValid e (polls req now builds) v = attach-IsValid e req now builds v
handle-IsValid e (takes a) v = receive-IsValid e a v
handle-IsValid e (leaves a now) v = detach-IsValid e a now v
handle-IsValid e (releases id now builds) v = release-IsValid e id now builds v
handle-IsValid e (fires id now builds) v = schedule-IsValid _ now builds v
handle-IsValid e (collects now) v = gc_queued-IsValid e now v
handle-IsValid e (collects_stagger now) v = v
handle-IsValid e (pauses p now builds) v = schedule-IsValid _ now builds v
handle-IsValid e (drains d now builds) v = schedule-IsValid _ now builds v
handle-IsValid e (resumes now builds) v = schedule-IsValid _ now builds v
handle-IsValid e (samples cpu ram_p now builds) v = schedule-IsValid _ now builds v

run-IsValid : (e : Engine) (evs : List Event) → IsValid e → IsValid (run e evs)
unfolding run
run-IsValid e [] v = v
run-IsValid e (ev ∷ evs) v = run-IsValid (handle e ev) evs (handle-IsValid e ev v)

-- After any history of events from a new engine the invariant holds: no more slots are held than the
-- limit, a slot is held for exactly the ids that were admitted and not released, every queued waiter
-- stands in the queue, and the queue's queued waiters are the ones that their ids lead to.
pub run-new_engine-IsValid :
    (policy : Policy) (evs : List Event) → IsValid (run (new_engine policy) evs)
run-new_engine-IsValid policy evs = run-IsValid _ evs (new_engine-IsValid policy)
