-- ===== src/Registry/Reports.antt =====
-- internal/registry/registry.go: `Counts`, `Snapshot` and `SnapshotAPI`; internal/admission/wiring.go:
-- `SnapshotActive` and `Alive`; internal/bep/ingest.go: `anyBuildActive`. `sort.Slice` is modelled by an
-- insertion sort: it leaves open the order of builds that started at one instant.
pub mod Sorting
use bazel_broker.Common.{
  ℕ, suc, Bool, true, false, ◌&&◌, ◌||◌, not, Option, none, some, List, [], ◌∷◌, any, GoString,
  Assoc, ℤ, pos, ltb, leb_ℤ, if◌then◌else◌,
}
use bazel_broker.Admission.Types.{Time, ActiveBuild}
use bazel_broker.Build.{State, queued, is_terminal, Build, ApiBuild, to_api}
use bazel_broker.Registry.{Registry}
use bazel_broker.Registry.Upsert.{find_by_pid}

pub record Counts : Type 0 where
  pub building : ℕ
  pub queued : ℕ
  pub total : ℕ

abbrev pub is_queued : State → Bool
is_queued State.queued = true
is_queued _ = false

-- The body of the loop of `Counts`.
unfoldable pub count_build : Build → Counts → Counts
count_build b c = record {
  building =
      if is_queued b.state
      then c.building
      else if is_terminal b.state
      then c.building
      else suc c.building;
  queued = if is_queued b.state then suc c.queued else c.queued;
  total = suc c.total;
}

unfoldable pub count_all : Assoc Build → Counts
count_all [] = record { building = 0; queued = 0; total = 0 }
count_all ((k, b) ∷ builds) = count_build b (count_all builds)

unfoldable pub counts : Registry → Counts
counts r = count_all r.builds

unfoldable pub values : Assoc Build → List Build
values [] = []
values ((k, b) ∷ builds) = b ∷ values builds

unfoldable pub insert_newest : Build → List Build → List Build
insert_newest b [] = b ∷ []
insert_newest b (c ∷ bs) =
    if ltb b.start_time c.start_time then c ∷ insert_newest b bs else b ∷ c ∷ bs

unfoldable pub sort_newest : List Build → List Build
sort_newest [] = []
sort_newest (b ∷ bs) = insert_newest b (sort_newest bs)

-- `Snapshot`: every build, the newest start first.
unfoldable pub snapshot : Registry → List Build
snapshot r = sort_newest (values r.builds)

abbrev pub to_api_all : List Build → Time → List ApiBuild
to_api_all [] now = []
to_api_all (b ∷ bs) now = to_api b now ∷ to_api_all bs now

-- RFC 3339 texts in UTC sort as the seconds that they spell, and the empty text comes first.
abbrev pub start_key : ApiBuild → ℕ
start_key b = elim b.start_time [ none ↦ 0 | some t ↦ suc t ]

unfoldable pub insert_newest_api : ApiBuild → List ApiBuild → List ApiBuild
insert_newest_api b [] = b ∷ []
insert_newest_api b (c ∷ bs) =
    if ltb (start_key b) (start_key c) then c ∷ insert_newest_api b bs else b ∷ c ∷ bs

unfoldable pub sort_newest_api : List ApiBuild → List ApiBuild
sort_newest_api [] = []
sort_newest_api (b ∷ bs) = insert_newest_api b (sort_newest_api bs)

-- `SnapshotAPI`, which sorts by the text of the start.
unfoldable pub snapshot_api : Registry → Time → List ApiBuild
snapshot_api r now = sort_newest_api (to_api_all (values r.builds) now)

abbrev pub active_build : Build → ActiveBuild
active_build b = record {
  invocation_id = b.invocation_id;
  targets = b.targets;
  pid = b.pid;
  started_at = b.start_time;
}

unfoldable pub active_builds : List Build → List ActiveBuild
active_builds [] = []
active_builds (b ∷ bs) =
    if is_terminal b.state then active_builds bs else active_build b ∷ active_builds bs

-- `SnapshotActive` of the adapter.
unfoldable pub snapshot_active : Registry → List ActiveBuild
snapshot_active r = active_builds (snapshot r)

-- `Alive` of the adapter; `signalled` tells whether signal 0 to the pid finds a process.
unfoldable pub alive : Registry → (signalled : ℤ → Bool) → ℤ → Bool
alive r signalled pid = if leb_ℤ pid (pos 0) then false else elim (find_by_pid pid r.builds) [
  | none ↦ signalled pid
  | some (k, b) ↦ if is_terminal b.state then false else signalled pid
]

-- `anyBuildActive`.
unfoldable pub any_build_active : Registry → Bool
any_build_active r = any (λ b. not (is_terminal b.state)) (snapshot r)
