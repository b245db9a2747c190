-- ===== src/Admission/Engine.antt =====
-- internal/admission/engine.go: the admission state machine, a FIFO queue behind the chain of gates.
-- A waiter is shared by the queue, by the map of ids and by the handlers that poll for it, so waiters
-- lie on a heap and are named by their address; `next` is the first address not yet used. An
-- operation is given the instant that its clock reads, once for all its readings, and `schedule` the
-- builds that the registry reports. What a mutex covers is one function; `Admit` and `Release`, which
-- take it more than once, are composed of such functions (Lifecycle.antt).
pub mod Queries
pub mod Heap
pub mod Turns
pub mod Fifo
pub mod Drain
use bazel_broker.Common.{
  ℕ, suc, Bool, true, false, ◌&&◌, ◌||◌, not, Option, none, some, List, [], ◌∷◌, ◌++◌, keep,
  GoString, is_empty, Assoc, lookup, insert, delete, ℤ, pos, sub_ℕ, is_zero, ltb_ℤ, leb_ℤ, ◌==◌,
  if◌then◌else◌,
}
use bazel_broker.Admission.Types.{
  Verdict, allow, queue, deny, Request, Policy, poll_cap, Duration, Time, seconds, ActiveBuild,
  RegistrySnapshot,
}
use bazel_broker.Admission.Targets.{split_targets}
use bazel_broker.Admission.Semaphore.{Semaphore, new_semaphore, sem_try, sem_acquire, sem_release}
use bazel_broker.Admission.TokenBucket.{TokenBucket, new_token_bucket, set_sample, bucket_try}
use bazel_broker.Admission.Stagger.{Stagger, new_stagger, stagger_try, stagger_acquire, stagger_gc}

pub data WaiterState : Type 0 where
  ws_queued ws_admitted ws_done : WaiterState

-- `ch` is the channel's buffer, which has room for one verdict.
pub record Waiter : Type 0 where
  pub req : Request
  pub state : WaiterState
  pub connected : Bool
  pub last_detach : Time
  pub ch : Option Verdict

abbrev pub Addr : Type 0
Addr = ℕ

-- `retry_timers` keeps the delay of each armed timer.
pub record Engine : Type 0 where
  pub poll_seconds : Duration
  pub sem : Semaphore
  pub bucket : TokenBucket
  pub stagger : Stagger
  pub line : List Addr
  pub by_id : Assoc Addr
  pub heap : Addr → Waiter
  pub next : Addr
  pub paused : Bool
  pub draining : Bool
  pub recently_admitted : ℕ
  pub queued_gc_grace : Duration
  pub retry_timers : Assoc Duration

abbrev pub blank : Waiter
blank = record {
  req = record { invocation_id = []; worktree = []; pid = pos 0; targets = [] };
  state = ws_done;
  connected = false;
  last_detach = 0;
  ch = none;
}

unfoldable pub new_engine : Policy → Engine
new_engine policy = record {
  poll_seconds = poll_cap policy;
  sem = new_semaphore policy.max_concurrent;
  bucket = new_token_bucket policy.cpu_high_water policy.ram_pressure_max;
  stagger = new_stagger policy.stagger_window;
  line = [];
  by_id = [];
  heap = λ a. blank;
  next = 0;
  paused = false;
  draining = false;
  recently_admitted = 0;
  queued_gc_grace = seconds 30;
  retry_timers = [];
}

abbrev pub is_queued : WaiterState → Bool
is_queued ws_queued = true
is_queued ws_admitted = false
is_queued ws_done = false

-- An assignment through a waiter's pointer.
unfoldable pub write : (Addr → Waiter) → Addr → Waiter → Addr → Waiter
write heap a w p = if p == a then w else heap p

-- `deliver`: a verdict that is pending is kept.
unfoldable pub deliver : Waiter → Verdict → Waiter
deliver w v = elim w.ch [ none ↦ record w { ch = some v } | some old ↦ w ]

abbrev pub longer : Duration → Duration
longer retry = if ltb_ℤ (pos 0) retry then retry else pos 0

-- The verdict of the gates and the hint, and the stagger gate, which a trial may change.
unfoldable pub try_all_gates :
    Engine → Time → Request → RegistrySnapshot → (Bool × Duration) × Stagger
try_all_gates e now req snap =
    let (sem_ok, sem_retry) = sem_try e.sem req in
    let (bucket_ok, bucket_retry) = bucket_try e.bucket snap.recently_admitted in
    let ((stagger_ok, stagger_retry), stagger) = stagger_try e.stagger now req snap.builds in
    if not sem_ok
    then ((false, longer sem_retry), e.stagger)
    else if not bucket_ok
    then ((false, longer bucket_retry), e.stagger)
    else if not stagger_ok
    then ((false, longer stagger_retry), stagger)
    else ((true, pos 0), stagger)

unfoldable pub acquire_all_gates : Engine → Time → Request → Engine
acquire_all_gates e now req = record e {
  sem = sem_acquire e.sem req;
  stagger = stagger_acquire e.stagger now req;
}

-- The loop of `Release` over the gates. The bucket and the stagger gate ignore a release.
unfoldable pub release_gates : Engine → GoString → Engine
release_gates e id = record e { sem = sem_release e.sem id }

unfoldable pub arm_retry_timer : Engine → GoString → Duration → Engine
arm_retry_timer e id d = record e {
  retry_timers = if leb_ℤ d (pos 0) then e.retry_timers else insert id d e.retry_timers;
}

-- How one turn of the loop of `schedule` ends: it returns, or the head is popped.
pub data Turn : Type 0 where
  returns : Engine → Turn
  popped : RegistrySnapshot → Engine → Turn

abbrev pub deny_head : Engine → Addr → Engine
deny_head e a =
    let w = e.heap a in
    record e {
      heap = write e.heap a (record (deliver w deny) { state = ws_done });
      by_id = delete w.req.invocation_id e.by_id;
    }

abbrev pub admit_head : Engine → Time → Addr → Engine
admit_head e now a =
    let w = e.heap a in
    let e' = acquire_all_gates e now w.req in
    record e' {
      heap = write e.heap a (record (deliver w allow) { state = ws_admitted });
      recently_admitted = suc e.recently_admitted;
    }

abbrev pub admitted_snap : RegistrySnapshot → Engine → Time → Request → RegistrySnapshot
admitted_snap snap e now req = record {
  builds =
      snap.builds
      ++ record {
        invocation_id = req.invocation_id;
        targets = split_targets req.targets;
        pid = req.pid;
        started_at = now;
      }
        ∷ [];
  recently_admitted = suc e.recently_admitted;
}

-- The body of the loop, for the waiter at the head.
unfoldable pub turn : Time → Addr → RegistrySnapshot → Engine → Turn
turn now a snap e =
    let w = e.heap a in
    let ((admit, retry), stagger) = try_all_gates e now w.req snap in
    let e' = record e { stagger = stagger } in
    if not (is_queued w.state)
    then popped snap e
    else if e.draining
    then popped snap (deny_head e a)
    else if not admit
    then returns (arm_retry_timer e' w.req.invocation_id retry)
    else popped (admitted_snap snap e now w.req) (admit_head e' now a)

-- The loop, over what is left of the queue.
unfoldable pub turns : Time → List Addr → RegistrySnapshot → Engine → Engine
turns now [] snap e = record e { line = [] }
turns now (a ∷ rest) snap e = elim (turn now a snap e) [
  | returns e' ↦ record e' { line = a ∷ rest }
  | popped snap' e' ↦ turns now rest snap' e'
]

-- The snapshot with which the loop starts.
abbrev pub start_snap : Engine → List ActiveBuild → RegistrySnapshot
start_snap e builds = record { builds = builds; recently_admitted = e.recently_admitted }

unfoldable pub schedule : Engine → Time → List ActiveBuild → Engine
schedule e now builds =
    if e.paused || is_empty e.line then e else turns now e.line (start_snap e builds) e
