-- ===== src/Bep/Manager.antt =====
-- internal/bep/manager.go: one tailer for each worktree with an active build. A tailer is a goroutine,
-- known by a number; `tails` holds the number whose context the manager would cancel. What a tailer does
-- with its file is in Bep/Stream.
pub mod Watching
pub mod Idle
pub mod Races
use bazel_broker.Common.{
  ℕ, suc, Bool, true, false, ◌&&◌, ◌||◌, not, Option, none, some, List, [], ◌∷◌, ◌++◌, map, keep,
  GoString, is_empty, str_eq, Assoc, lookup, insert, delete, ℤ, leb_ℤ, sub_ℕ, ◌==◌, if◌then◌else◌,
}
use bazel_broker.Admission.Types.{Time, Duration, seconds}
use bazel_broker.Admission.Targets.{member}
use bazel_broker.Build.{is_terminal, Build}
use bazel_broker.Registry.{Registry}
use bazel_broker.Registry.Reports.{snapshot}

pub record Tailer : Type 0 where
  pub number : ℕ
  pub worktree : GoString
  pub cancelled : Bool

-- `Manager`, and the goroutines that it has started and that have not returned.
pub record Manager : Type 0 where
  pub tails : Assoc ℕ
  pub tailers : List Tailer
  pub next : ℕ

unfoldable pub new_manager : Manager
new_manager = record { tails = []; tailers = []; next = 0 }

unfoldable pub watch : Manager → GoString → Manager
watch m worktree = if is_empty worktree then m else elim (lookup worktree m.tails) [
  | some number ↦ m
  | none ↦ record {
    tails = insert worktree m.next m.tails;
    tailers = m.tailers ++ record { number = m.next; worktree = worktree; cancelled = false } ∷ [];
    next = suc m.next;
  }
]

-- A call of the function that cancels the context of one tailer.
unfoldable pub cancel : ℕ → List Tailer → List Tailer
cancel number [] = []
cancel number (t ∷ rest) =
    (if t.number == number then record t { cancelled = true } else t) ∷ cancel number rest

unfoldable pub stop : Manager → GoString → Manager
stop m worktree = elim (lookup worktree m.tails) [
  | none ↦ record m { tails = delete worktree m.tails }
  | some number ↦ record m { tails = delete worktree m.tails; tailers = cancel number m.tailers }
]

-- `Watching`.
unfoldable pub watching : Manager → GoString → Bool
watching m worktree = elim (lookup worktree m.tails) [ none ↦ false | some number ↦ true ]

-- The end of the goroutine of `Watch`, after `watchFile` has returned.
unfoldable pub tailer_exits : Manager → Tailer → Manager
tailer_exits m t = record m {
  tails = delete t.worktree m.tails;
  tailers = keep (λ (u : Tailer). not (u.number == t.number)) m.tailers;
}

-- The set `activeWT`, in the order in which it is filled.
unfoldable pub active_worktrees : List Build → List GoString
active_worktrees [] = []
active_worktrees (b ∷ builds) =
    let rest = active_worktrees builds in
    if is_empty b.worktree || is_terminal b.state || member b.worktree rest
    then rest
    else b.worktree ∷ rest

-- The loop that watches, and the idle times that it clears.
unfoldable pub watch_all : List GoString → Manager × Assoc Time → Manager × Assoc Time
watch_all [] (m, idle) = (m, idle)
watch_all (wt ∷ rest) (m, idle) = watch_all rest (watch m wt, delete wt idle)

-- The body of the loop that tears down.
unfoldable pub tear_down :
    List GoString
    → (now : Time) (grace : Duration) → GoString
    → Manager × Assoc Time
    → Manager × Assoc Time
tear_down active now grace wt (m, idle) =
    if member wt active then (m, idle) else elim (lookup wt idle) [
      | none ↦ (m, insert wt now idle)
      | some t ↦ if leb_ℤ grace (sub_ℕ now t) then (stop m wt, delete wt idle) else (m, idle)
    ]

unfoldable pub tear_down_all :
    List GoString
    → (now : Time) (grace : Duration) → List GoString
    → Manager × Assoc Time
    → Manager × Assoc Time
tear_down_all active now grace [] state = state
tear_down_all active now grace (wt ∷ rest) state =
    tear_down_all active now grace rest (tear_down active now grace wt state)

-- `grace` of `Run`.
abbrev pub idle_grace : Duration
idle_grace = seconds 30

-- `reconcile`, on the manager and the idle times that `Run` keeps.
unfoldable pub reconcile :
    Manager × Assoc Time → Registry → (now : Time) (grace : Duration) → Manager × Assoc Time
reconcile state reg now grace =
    let active = active_worktrees (snapshot reg) in
    let (m, idle) = watch_all active state in
    tear_down_all active now grace (map (λ e. e.0) m.tails) (m, idle)
