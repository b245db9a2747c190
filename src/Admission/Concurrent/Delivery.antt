-- ===== src/Admission/Concurrent/Delivery.antt =====
-- A verdict that is buffered in the channel of a waiter, while the parts of other operations run.
use bazel_broker.Common.{
  ◌≡◌, ◌≢◌, ◌<◌, refl, ap, sym, Option, none, some, List, [], ◌∷◌, ◌++◌, GoString, lookup, inl, inr,
  Bool-cases, Option-cases, arith,
}
use bazel_broker.Admission.Types.{Verdict, Request, Time, RegistrySnapshot, ActiveBuild}
use bazel_broker.Admission.Engine.{
  Engine, Addr, write, deliver, acquire_all_gates, arm_retry_timer, release_gates, turn, schedule,
}
use bazel_broker.Admission.Engine.Turns.{Ends, turns_ind, turn_cases, schedule_cases}
use bazel_broker.Admission.Engine.Heap.{IsValid}
use bazel_broker.Admission.Lifecycle.{
  attach_locked, detach, receive, Others, Wake, admit, release_locked, disarm, is_stale,
  drop_waiter, gc_loop, gc_queued,
}
use bazel_broker.Admission.Concurrent.{
  Lock, unlocked, MicroStep, attaches, enters, skips, denies, refuses, finds_open, admits, leaves,
  frees_gates, receives, detaches, locks_release, disarms, collects, collects_stagger, pauses,
  drains, samples, resets_ramp, MicroReach, here, next,
}

-- Whose channel a step receives from.
abbrev pub taken : {s t : Engine × Lock} → MicroStep s t → Option Addr
taken (attaches e req) = none
taken (enters e builds running) = none
taken (skips e a rest snap q) = none
taken (denies e a rest snap q d) = none
taken (refuses e now a rest snap q d t) = none
taken (finds_open e now a rest snap q d t) = none
taken (admits e now a rest snap) = none
taken (leaves e snap) = none
taken (frees_gates e id l) = none
taken (receives e a l) = some a
taken (detaches e a now) = none
taken (locks_release e id) = none
taken (disarms e id) = none
taken (collects e now) = none
taken (collects_stagger e now l) = none
taken (pauses e p) = none
taken (drains e d) = none
taken (samples e cpu ram_p l) = none
taken (resets_ramp e) = none

-- No step of the run receives from the channel of the waiter.
abbrev pub Untaken : (a : Addr) {s t : Engine × Lock} → MicroReach s t → Type 0
Untaken a here = Unit
Untaken a (next r st) = Untaken a r × (taken st ≢ some a)

-- The waiter's verdict is buffered, and its address is in use.
abbrev Pending : Addr → Verdict → Engine → Type 0
Pending a v e = (a < e.next) × ((e.heap a).ch ≡ some v)

attach_locked-Pending :
    (a : Addr) (v : Verdict) (e : Engine) (req : Request)
    → Pending a v e
    → Pending a v (attach_locked e req).0
unfolding attach_locked write
attach_locked-Pending a v e req p = elim (Option-cases (lookup req.invocation_id e.by_id)) [
  | inl h ↦ rw (h, attach_locked) (ground arith, ground arith)
  | inr (b, h) ↦ rw (h, attach_locked) (p.0, ground (arith, ap e.heap {x = a} {y = b}))
]

release_locked-Pending :
    (a : Addr) (v : Verdict) (e : Engine) (id : GoString)
    → Pending a v e
    → Pending a v (release_locked e id)
unfolding release_locked write
release_locked-Pending a v e id p = elim (Option-cases (lookup id e.by_id)) [
  | inl h ↦ rw (h, release_locked) p
  | inr (b, h) ↦ rw (h, release_locked) (p.0, ground (arith, ap e.heap {x = a} {y = b}))
]

drop_waiter-Pending :
    (a b : Addr) (v : Verdict) (e : Engine) → Pending a v e → Pending a v (drop_waiter e b)
unfolding write
drop_waiter-Pending a b v e p = (p.0, ground (arith, ap e.heap {x = a} {y = b}))

gc_loop-Pending :
    (a : Addr) (v : Verdict) (now : Time) (kept rest : List Addr) (e : Engine)
    → Pending a v e
    → Pending a v (gc_loop now kept rest e)
unfolding gc_loop
gc_loop-Pending a v now kept [] e p = p
gc_loop-Pending a v now kept (b ∷ rest) e p = elim (Bool-cases (is_stale e now (e.heap b))) [
  | inl h ↦ rw (h, gc_loop) (gc_loop-Pending a v now kept rest _ (drop_waiter-Pending a b v e p))
  | inr h ↦ rw (h, gc_loop) (gc_loop-Pending a v now (kept ++ b ∷ []) rest e p)
]

MicroStep-Pending :
    (a : Addr) (v : Verdict) {s t : Engine × Lock}
    → (st : MicroStep s t) → taken st ≢ some a
    → Pending a v s.0
    → Pending a v t.0
unfolding write deliver detach receive release_gates disarm gc_queued acquire_all_gates
    arm_retry_timer
MicroStep-Pending a v (attaches e req) n p = attach_locked-Pending a v e req p
MicroStep-Pending a v (enters e builds running) n p = p
MicroStep-Pending a v (skips e b rest snap q) n p = p
MicroStep-Pending a v (denies e b rest snap q d) n p =
    (p.0, ground (arith, ap (λ x. (e.heap x).ch) {x = a} {y = b}))
MicroStep-Pending a v (refuses e now b rest snap q d t) n p = p
MicroStep-Pending a v (finds_open e now b rest snap q d t) n p = p
MicroStep-Pending a v (admits e now b rest snap) n p =
    (p.0, ground (arith, ap (λ x. (e.heap x).ch) {x = a} {y = b}))
MicroStep-Pending a v (leaves e snap) n p = p
MicroStep-Pending a v (frees_gates e id l) n p = p
MicroStep-Pending a v (receives e b l) n p = (p.0, ground (arith, other))
  where
    other : a ≢ b
    other = λ h. n (ap some (sym h))
MicroStep-Pending a v (detaches e b now) n p =
    (p.0, ground (arith, ap (λ x. (e.heap x).ch) {x = a} {y = b}))
MicroStep-Pending a v (locks_release e id) n p = release_locked-Pending a v e id p
MicroStep-Pending a v (disarms e id) n p = p
MicroStep-Pending a v (collects e now) n p = gc_loop-Pending a v now [] e.line e p
MicroStep-Pending a v (collects_stagger e now l) n p = p
MicroStep-Pending a v (pauses e q) n p = p
MicroStep-Pending a v (drains e d) n p = p
MicroStep-Pending a v (samples e cpu ram_p l) n p = p
MicroStep-Pending a v (resets_ramp e) n p = p

MicroReach-Pending :
    (a : Addr) (v : Verdict) {s t : Engine × Lock}
    → (r : MicroReach s t) → Untaken a r
    → Pending a v s.0
    → Pending a v t.0
MicroReach-Pending a v here n p = p
MicroReach-Pending a v (next r st) n p =
    MicroStep-Pending a v st n.1 (MicroReach-Pending a v r n.0 p)

turn-Pending :
    (a : Addr) (v : Verdict) (now : Time) (b : Addr) (rest : List Addr) (snap : RegistrySnapshot)
    (e : Engine)
    → Pending a v e
    → Ends now (λ line snap' e'. Pending a v e') (Pending a v) b rest (turn now b snap e)
unfolding write deliver acquire_all_gates arm_retry_timer
turn-Pending a v now b rest snap e p =
    turn_cases now b snap e (Ends now (λ line snap' e'. Pending a v e') (Pending a v) b rest)
      (λ h. p) (λ q d. (p.0, ground (arith, ap (λ x. (e.heap x).ch) {x = a} {y = b}))) (λ q d t. p)
      (λ q d t. (p.0, ground (arith, ap (λ x. (e.heap x).ch) {x = a} {y = b})))

schedule-Pending :
    (a : Addr) (v : Verdict) (e : Engine) (now : Time) (builds : List ActiveBuild)
    → Pending a v e
    → Pending a v (schedule e now builds)
schedule-Pending a v e now builds p =
    schedule_cases (Pending a v) e now builds (λ _. p) (λ _. p)
      λ _.
        turns_ind now (λ line snap' e'. Pending a v e') (Pending a v) (λ snap e' k. k)
          (turn-Pending a v now) e.line _ e p

-- What others do is a run of the parts that takes no verdict from the waiter.
abbrev pub Leaves : Addr → (Engine → Engine) → Type 0
Leaves a others = (x : Engine) → (r : MicroReach (x, unlocked) (others x, unlocked)) × Untaken a r

Leaves-Pending :
    (a : Addr) (v : Verdict) (others : Engine → Engine) (x : Engine)
    → Leaves a others
    → Pending a v x
    → Pending a v (others x)
Leaves-Pending a v others x quiet p = MicroReach-Pending a v (quiet x).0 (quiet x).1 p

attach_locked-known :
    (e : Engine) (req : Request) (a : Addr)
    → lookup req.invocation_id e.by_id ≡ some a
    → (attach_locked e req).1 ≡ a
unfolding attach_locked
attach_locked-known e req a known = rw (known, attach_locked) refl

-- A verdict that is buffered for an id is what the next poll of the id returns, at once and whichever case a
-- wait would have ended by: whatever the others do while the poll attaches and before it receives, but that
-- another poll of the same id takes the verdict first.
pub admit_buffered :
    (e : Engine) (req : Request) (attached left : Time) (builds : List ActiveBuild)
    (others : Others) (wake : Wake) (a : Addr) (v : Verdict)
    → IsValid e
    → lookup req.invocation_id e.by_id ≡ some a
    → (e.heap a).ch ≡ some v
    → Leaves a others.enqueued
    → Leaves a others.attached
    → (admit e req attached left builds others wake).1 ≡ v
unfolding admit receive
admit_buffered e req attached left builds others wake a v valid known full quiet1 quiet2 =
    let e1 = (attach_locked e req).0 in
    let p1 = attach_locked-Pending a v e req (valid.known_fresh req.invocation_id a known, full) in
    let p2 = Leaves-Pending a v others.enqueued e1 quiet1 p1 in
    let p3 = schedule-Pending a v (others.enqueued e1) attached builds p2 in
    let p4 =
      Leaves-Pending a v others.attached (schedule (others.enqueued e1) attached builds) quiet2
        p3 in
    ground (arith, p4.1, attach_locked-known e req a known)
