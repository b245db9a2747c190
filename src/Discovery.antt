-- ===== src/Discovery.antt =====
-- internal/discovery/reconcile.go: one pass of discovery over the registry. The scanner's processes and the
-- worktree of a directory, which come from system calls, are arguments.
mod Tests
use bazel_broker.Common.{
  Bool, true, false, ◌&&◌, ◌≡◌, refl, Option, none, some, List, [], ◌∷◌, any, All, GoString, str_eq,
  Assoc, lookup, IsMap, ℤ, eqb_ℤ, if◌then◌else◌, Bool-cases, Option-cases, ◌⊎◌, inl, inr, subst,
  ◌++◌, arith, All-map, is_zero, pos, negsuc, eq_of_eqb, eq_of_is_zero,
}
use bazel_broker.Admission.Types.{Time}
use bazel_broker.Build.{is_terminal, running, discovered, Build}
use bazel_broker.Registry.{Registry, blank_build}
use bazel_broker.Registry.Upsert.{pid_name, upsert}
use bazel_broker.Registry.Reap.{
  is_missing, reap_build, reap_all, publish_all, reap_missing_discovered,
}
use bazel_broker.Registry.Lifecycle.{
  Continues, Change, upserts, reaps, change, changes, changes-Continues, builds-publish_all,
}

-- `ProcInfo` and `Worktree`.
pub record ProcInfo : Type 0 where
  pub pid : ℤ
  pub exe_path : GoString
  pub cwd : GoString

pub record Worktree : Type 0 where
  pub root : GoString
  pub name : GoString
  pub git_dir : GoString

-- The build that a process found in a worktree stands for.
abbrev pub found_build : ProcInfo → Worktree → Build
found_build p wt = record (blank_build [] 0) {
  pid = p.pid;
  exe_path = p.exe_path;
  cwd = p.cwd;
  worktree = wt.root;
  worktree_name = wt.name;
  git_dir = wt.git_dir;
  source = discovered;
  state = running;
}

-- The set `seenPIDs`.
unfoldable pub seen_pids : (GoString → Option Worktree) → List ProcInfo → ℤ → Bool
seen_pids resolve [] pid = false
seen_pids resolve (p ∷ procs) pid = elim (resolve p.cwd) [
  | none ↦ seen_pids resolve procs pid
  | some wt ↦ if eqb_ℤ p.pid pid then true else seen_pids resolve procs pid
]

module _ (resolve : GoString → Option Worktree) (now : Time) where
  -- The loop over the processes.
  unfoldable pub merge_all : Registry → List ProcInfo → Registry
  merge_all r [] = r
  merge_all r (p ∷ procs) = elim (resolve p.cwd) [
    | none ↦ merge_all r procs
    | some wt ↦ merge_all (upsert r (found_build p wt) now).0 procs
  ]

  -- `ReconcileOnce`: without a snapshot of the processes it fails and changes nothing. The second part is
  -- whether it succeeded.
  unfoldable pub reconcile_once : Registry → Option (List ProcInfo) → Registry × Bool
  reconcile_once r none = (r, false)
  reconcile_once r (some procs) =
      (reap_missing_discovered (merge_all r procs) (seen_pids resolve procs) now, true)

  -- The pass found the process in a worktree.
  abbrev pub Found : List ProcInfo → ℤ → Type 0
  Found [] pid = ⊥
  Found (p ∷ procs) pid =
      ((wt : Worktree) × (resolve p.cwd ≡ some wt) × (p.pid ≡ pid)) ⊎ Found procs pid

  seen_pids-Found :
      (procs : List ProcInfo) (pid : ℤ) → seen_pids resolve procs pid ≡ true → Found procs pid
  unfolding seen_pids
  seen_pids-Found [] pid h = absurd (cc)
  seen_pids-Found (p ∷ procs) pid h = elim (Option-cases (resolve p.cwd)) [
    | inl e ↦ inr (seen_pids-Found procs pid (rw (e, seen_pids) at h))
    | inr (wt, e) ↦ elim (Bool-cases (eqb_ℤ p.pid pid)) [
      | inl same ↦ inl (wt, e, eq_of_eqb p.pid pid same)
      | inr apart ↦ inr (seen_pids-Found procs pid (ground arith))
    ]
  ]

  -- A discovered build that has not ended has no pid, or a process that the pass found.
  abbrev pub Accounted : List ProcInfo → Build → Type 0
  Accounted procs b =
      b.source ≡ discovered → is_terminal b.state ≡ false → (b.pid ≡ pos 0) ⊎ Found procs b.pid

  found-Accounted :
      (procs : List ProcInfo) (b : Build)
      → is_missing (seen_pids resolve procs) b ≡ false
      → Accounted procs b
  unfolding is_missing
  found-Accounted procs b h d live = elim (Bool-cases (is_zero b.pid)) [
    | inl z ↦ inl (eq_of_is_zero b.pid z)
    | inr n ↦ inr (seen_pids-Found procs b.pid (ground arith))
  ]

  reap_build-found : (seen : ℤ → Bool) (b : Build) → is_missing seen (reap_build seen now b) ≡ false
  unfolding reap_build is_missing is_terminal
  reap_build-found seen b = ground arith

  reap_all-found :
      (seen : ℤ → Bool) (m : Assoc Build)
      → All (λ e. is_missing seen e.1 ≡ false) (reap_all seen now m)
  unfolding reap_all
  reap_all-found seen [] = tt
  reap_all-found seen ((k, b) ∷ m) = (reap_build-found seen b, reap_all-found seen m)

  -- After a pass every discovered build that has not ended has a process that the pass found in a
  -- worktree, or no pid at all.
  pub reconcile_once-found :
      (r : Registry) (procs : List ProcInfo)
      → All (λ e. Accounted procs e.1) (reconcile_once r (some procs)).0.builds
  unfolding reconcile_once reap_missing_discovered
  reconcile_once-found r procs = rw builds-publish_all (
      All-map _ (λ e. Accounted procs e.1) (λ e h. found-Accounted procs e.1 h) _
        (reap_all-found (seen_pids resolve procs) (merge_all r procs).builds))

  -- The updates of a pass, and the pass as a history of mutations.
  unfoldable updates : List ProcInfo → List Change
  updates [] = []
  updates (p ∷ procs) = elim (resolve p.cwd) [
    | none ↦ updates procs
    | some wt ↦ upserts (found_build p wt) now ∷ updates procs
  ]

  merge_all-changes :
      (r : Registry) (procs : List ProcInfo) (last : Change)
      → changes r (updates procs ++ last ∷ []) ≡ change (merge_all r procs) last
  unfolding merge_all changes change updates
  merge_all-changes r [] last = refl
  merge_all-changes r (p ∷ procs) last = elim (Option-cases (resolve p.cwd)) [
    | inl e ↦ rw (e, merge_all, updates) (merge_all-changes r procs last)
    | inr (wt, e) ↦
        rw (e, merge_all, updates)
          (merge_all-changes (upsert r (found_build p wt) now).0 procs last)
  ]

  -- Through a pass every build whose id is not made up from a pid stays under its id, with its start, and
  -- a build that has ended keeps its state, end and exit code.
  pub reconcile_once-Continues :
      (r : Registry) (procs : Option (List ProcInfo)) (id : GoString)
      → ((p : ℤ) → str_eq (pid_name p) id ≡ false)
      → IsMap r.builds
      → Continues id r.builds (reconcile_once r procs).0.builds
  unfolding reconcile_once change changes
  reconcile_once-Continues r none id real distinct = changes-Continues r [] id real distinct
  reconcile_once-Continues r (some procs) id real distinct =
      let last = reaps (seen_pids resolve procs) now in
      subst (λ (x : Registry). Continues id r.builds x.builds) (merge_all-changes r procs last)
        (changes-Continues r (updates procs ++ last ∷ []) id real distinct)
