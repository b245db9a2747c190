-- ===== src/Admission/Engine/Turns.antt =====
-- The turns of the loop of `schedule`, and an induction over them.
use bazel_broker.Common.{
  ◌≡◌, refl, ap, Bool, true, false, ◌||◌, not, List, [], ◌∷◌, GoString, is_empty, if◌then◌else◌,
  arith,
}
use bazel_broker.Admission.Types.{
  Time, Duration, Request, RegistrySnapshot, ActiveBuild, Verdict, allow,
}
use bazel_broker.Admission.Semaphore.{sem_try}
use bazel_broker.Admission.Stagger.{Stagger}
use bazel_broker.Admission.Engine.{
  Engine, Addr, Waiter, WaiterState, admitted_snap, ws_queued, ws_admitted, ws_done, is_queued,
  write, deliver, try_all_gates, acquire_all_gates, arm_retry_timer, Turn, returns, popped,
  deny_head, admit_head, turn, turns, schedule,
}
use bazel_broker.Admission.Engine.Heap.{InvOf, IsValid, shorten-Inv, drop-Inv, admit-Inv}

-- A proof rule for the loop. `P` speaks of what is left of the queue, the snapshot and the engine.
module _ (now : Time) (P : List Addr → RegistrySnapshot → Engine → Type 0)
    (Q : Engine → Type 0) where
  abbrev pub Ends : Addr → List Addr → Turn → Type 0
  Ends a rest (returns e) = Q (record e { line = a ∷ rest })
  Ends a rest (popped snap e) = P rest snap e

  pub turns_ind :
      ((snap : RegistrySnapshot) (e : Engine) → P [] snap e → Q (record e { line = [] }))
      → ((a : Addr) (rest : List Addr) (snap : RegistrySnapshot) (e : Engine)
          → P (a ∷ rest) snap e
          → Ends a rest (turn now a snap e))
      → (line : List Addr) (snap : RegistrySnapshot) (e : Engine) → P line snap e
      → Q (turns now line snap e)
  unfolding turns
  turns_ind done step [] snap e p = done snap e p
  turns_ind done step (a ∷ rest) snap e p =
      go (turn now a snap e) (step a rest snap e p) (turns_ind done step rest)
    where
      go :
          (t : Turn)
          → Ends a rest t
          → ((snap' : RegistrySnapshot) (e' : Engine)
              → P rest snap' e'
              → Q (turns now rest snap' e'))
          → Q (elim t [
            | returns e' ↦ record e' { line = a ∷ rest }
            | popped snap' e' ↦ turns now rest snap' e'
          ])
      go (returns e') q ih = q
      go (popped snap' e') q ih = ih snap' e' q

if_cases {ℓ κ} :
    {A : Type ℓ} (P : A → Type κ) (q d t : Bool) {w x y z : A}
    → (q ≡ false → P w)
    → (q ≡ true → d ≡ true → P x)
    → (q ≡ true → d ≡ false → t ≡ false → P y)
    → (q ≡ true → d ≡ false → t ≡ true → P z)
    → P (if not q then w else if d then x else if not t then y else z)
if_cases P false d t pw px py pz = pw refl
if_cases P true true t pw px py pz = px refl refl
if_cases P true false false pw px py pz = py refl refl refl
if_cases P true false true pw px py pz = pz refl refl refl

pub queued-eq : (s : WaiterState) → is_queued s ≡ true → s ≡ ws_queued
queued-eq ws_queued h = refl
queued-eq ws_admitted h = cc
queued-eq ws_done h = cc

-- The four ways in which a turn goes.
module _ (now : Time) (a : Addr) (snap : RegistrySnapshot) (e : Engine) where
  abbrev pub head_req : Request
  head_req = (e.heap a).req

  abbrev pub tried : (Bool × Duration) × Stagger
  tried = try_all_gates e now head_req snap

  abbrev pub after_try : Engine
  after_try = record e { stagger = tried.1 }

  pub turn_cases {ℓ} :
      (P : Turn → Type ℓ)
      → (is_queued (e.heap a).state ≡ false → P (popped snap e))
      → ((e.heap a).state ≡ ws_queued → e.draining ≡ true → P (popped snap (deny_head e a)))
      → ((e.heap a).state ≡ ws_queued
          → e.draining ≡ false
          → tried.0.0 ≡ false
          → P (returns (arm_retry_timer after_try head_req.invocation_id tried.0.1)))
      → ((e.heap a).state ≡ ws_queued
          → e.draining ≡ false
          → tried.0.0 ≡ true
          → P (popped (admitted_snap snap e now head_req) (admit_head after_try now a)))
      → P (turn now a snap e)
  unfolding turn
  turn_cases P skip denied held admitted =
      if_cases P (is_queued (e.heap a).state) e.draining tried.0.0 skip
        (λ q. denied (queued-eq _ q)) (λ q. held (queued-eq _ q)) (λ q. admitted (queued-eq _ q))

-- An admission needs a slot.
pub try_all_gates-sem :
    (e : Engine) (now : Time) (req : Request) (snap : RegistrySnapshot)
    → (try_all_gates e now req snap).0.0 ≡ true
    → (sem_try e.sem req).0 ≡ true
unfolding try_all_gates
try_all_gates-sem e now req snap h = ground arith

module _ (a : Addr) (rest : List Addr) where
  -- The head leaves the queue once it is not queued.
  pop-Inv : (e : Engine) → InvOf (a ∷ rest) e → is_queued (e.heap a).state ≡ false → InvOf rest e
  pop-Inv e v h =
      shorten-Inv v rest (λ b m. ground arith)
        (λ b m q. ground (arith, ap (λ x. (e.heap x).state) {x = a} {y = b}))

pub deliver-req : (w : Waiter) (v : Verdict) → (deliver w v).req ≡ w.req
unfolding deliver
deliver-req w v = ground arith

arm_retry_timer-Inv :
    (line : List Addr) (e : Engine) (id : GoString) (d : Duration)
    → InvOf line e
    → InvOf line (arm_retry_timer e id d)
unfolding arm_retry_timer
arm_retry_timer-Inv line e id d v = v

pub write_self : (heap : Addr → Waiter) (a : Addr) (w : Waiter) → write heap a w a ≡ w
unfolding write
write_self heap a w = ground arith

pub turn-Inv :
    (now : Time) (a : Addr) (rest : List Addr) (snap : RegistrySnapshot) (e : Engine)
    → InvOf (a ∷ rest) e
    → Ends now (λ line snap' e'. InvOf line e') IsValid a rest (turn now a snap e)
unfolding acquire_all_gates
turn-Inv now a rest snap e v =
    turn_cases now a snap e (Ends now (λ line snap' e'. InvOf line e') IsValid a rest)
      (λ h. pop-Inv a rest e v h)
      (λ q d. pop-Inv a rest (deny_head e a) (drop-Inv v a _ (ground arith) q refl) (rw write_self))
      (λ q d t. arm_retry_timer-Inv (a ∷ rest) _ _ _ v)
      (λ q d t.
        pop-Inv a rest (admit_head (after_try now a snap e) now a)
          (admit-Inv v a _ (ground arith) q refl
            (ap (λ (r : Request). r.invocation_id) (deliver-req (e.heap a) allow))
            (try_all_gates-sem e now (head_req now a snap e) snap t))
          (rw write_self))

-- The ways in which `schedule` goes.
pub schedule_cases {ℓ} :
    (P : Engine → Type ℓ) (e : Engine) (now : Time) (builds : List ActiveBuild)
    → (e.paused ≡ true → P e)
    → (e.line ≡ [] → P e)
    → (e.paused ≡ false
        → P (
            turns now e.line
              (record { builds = builds; recently_admitted = e.recently_admitted })
              e))
    → P (schedule e now builds)
unfolding schedule
schedule_cases P e now builds held idle walk = go e.paused e.line held idle walk
  where
    go :
        (p : Bool) (l : List Addr) {x y : Engine}
        → (p ≡ true → P x)
        → (l ≡ [] → P x)
        → (p ≡ false → P y)
        → P (if p || is_empty l then x else y)
    go true l px _ _ = px refl
    go false [] _ px _ = px refl
    go false (a ∷ l) _ _ py = py refl

-- `schedule` keeps the invariant.
pub schedule-IsValid :
    (e : Engine) (now : Time) (builds : List ActiveBuild)
    → IsValid e
    → IsValid (schedule e now builds)
schedule-IsValid e now builds v =
    schedule_cases IsValid e now builds (λ h. v) (λ h. v)
      λ h.
        turns_ind now (λ line snap' e'. InvOf line e') IsValid (λ snap e' w. w) (turn-Inv now)
          e.line _ e v
