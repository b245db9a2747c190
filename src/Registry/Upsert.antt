-- ===== src/Registry/Upsert.antt =====
-- internal/registry/registry.go: `Upsert`, which merges what discovery or the event stream found into
-- the build that it concerns, and `FindByPID`.
pub mod ById
use bazel_broker.Common.{
  Bool, true, false, ◌&&◌, not, Option, none, some, [], ◌∷◌, ◌++◌, GoString, is_empty, lit, decimal,
  Assoc, lookup, ℤ, pos, negsuc, suc, is_zero, eqb_ℤ, ◌==◌, if◌then◌else◌,
}
use bazel_broker.Admission.Types.{Time}
use bazel_broker.Build.{State, running, unset, is_terminal, Source, registered, discovered, Build}
use bazel_broker.Registry.{
  Registry, Result, ok, err, needs_id_or_pid, publish, store_build, blank_build,
}

-- `FindByPID`, and the loop of `Upsert`: the first build with the pid, in the order of the map.
unfoldable pub find_by_pid : ℤ → Assoc Build → Option (GoString × Build)
find_by_pid pid [] = none
find_by_pid pid ((k, b) ∷ builds) = if eqb_ℤ b.pid pid then some (k, b) else find_by_pid pid builds

-- `fmt.Sprintf("pid-%d", pid)`.
unfoldable pub pid_name : ℤ → GoString
pid_name (pos n) = lit "pid-" ++ decimal n
pid_name (negsuc n) = lit "pid--" ++ decimal (suc n)

abbrev pub discovered_build : GoString → Time → Build
discovered_build id now = record (blank_build id now) { source = discovered; state = running }

-- The build that `Upsert` updates, with its key: by pid, or by id, or a new one.
unfoldable pub upsert_target : Assoc Build → Build → Time → GoString × Build
upsert_target builds b now =
    let key = if is_empty b.invocation_id then pid_name b.pid else b.invocation_id in
    elim (if is_zero b.pid then none else find_by_pid b.pid builds) [
      | some found ↦ found
      | none ↦ elim (if is_empty b.invocation_id then none else lookup b.invocation_id builds) [
        | some stored ↦ (b.invocation_id, stored)
        | none ↦ (key, discovered_build key now)
      ]
    ]

abbrev pub is_registered : Source → Bool
is_registered registered = true
is_registered _ = false

abbrev pub is_running_or_unset : State → Bool
is_running_or_unset running = true
is_running_or_unset unset = true
is_running_or_unset _ = false

-- Whether `Upsert` applies the state of `b`.
abbrev pub ends : Build → Build → Bool
ends stored b = not (is_running_or_unset b.state) && not (is_terminal stored.state)

abbrev pub text_or : GoString → GoString → GoString
text_or new old = if is_empty new then old else new

-- The updates that `Upsert` makes to the stored build.
unfoldable pub upsert_merge : Build → Build → Time → Build
upsert_merge stored b now = record {
  invocation_id = stored.invocation_id;
  worktree = text_or b.worktree stored.worktree;
  worktree_name = text_or b.worktree_name stored.worktree_name;
  command = text_or b.command stored.command;
  targets =
      if not (is_empty b.targets) && not (is_registered stored.source)
      then b.targets
      else stored.targets;
  pid = if is_zero b.pid then stored.pid else b.pid;
  state = if ends stored b then b.state else stored.state;
  start_time = stored.start_time;
  end_time =
      if ends stored b
      then if b.end_time == 0
        then if stored.end_time == 0 then now else stored.end_time
        else b.end_time
      else stored.end_time;
  exit_code = if ends stored b && not (is_zero b.exit_code) then b.exit_code else stored.exit_code;
  source = stored.source;
  exe_path = text_or b.exe_path stored.exe_path;
  cwd = text_or b.cwd stored.cwd;
  git_dir = text_or b.git_dir stored.git_dir;
  last_seen = now;
  cache_hit_ratio = elim b.cache_hit_ratio [ none ↦ stored.cache_hit_ratio | some q ↦ some q ];
  profile_url = text_or b.profile_url stored.profile_url;
}

unfoldable pub upsert : Registry → Build → Time → Registry × Result Build
upsert r b now =
    let (key, stored) = upsert_target r.builds b now in
    let merged = upsert_merge stored b now in
    if is_empty b.invocation_id && is_zero b.pid
    then (r, err needs_id_or_pid)
    else (publish (store_build r key merged) merged now, ok merged)
