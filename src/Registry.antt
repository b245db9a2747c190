-- ===== src/Registry.antt =====
-- internal/registry/registry.go: what is building now, by invocation id. A build is reached through the
-- map only, so that a write through its pointer is a write to the map. `saved` is the sequence of rows
-- written to the store, whose failures are only logged; without a store or a hub it is `none`. The
-- instant is what the registry's clock reads. A mutation is a write under the mutex and then, without it, a
-- `publish`; here the one follows the other at once. Events/Reordered has two mutations whose parts mix.
pub mod Upsert
pub mod Reap
pub mod Reports
pub mod Follows
pub mod Lifecycle
pub mod Keyed
mod Tests
use bazel_broker.Common.{
  ℕ, suc, ◌+◌, Bool, true, false, ◌&&◌, ◌||◌, not, Option, none, some, List, [], ◌∷◌, ◌++◌, any,
  GoString, is_empty, lit, Assoc, lookup, insert, ℤ, pos, is_zero, eqb_ℤ, ltb, ◌==◌, if◌then◌else◌,
}
use bazel_broker.Admission.Types.{Time}
use bazel_broker.Build.{
  State, queued, running, finished, failed, gone, unset, is_terminal, Source, registered,
  discovered, no_source, Build, ApiBuild, to_api, format_time, Event, event_build,
}
use bazel_broker.Hub.{Hub, broadcast}

pub record Registry : Type 0 where
  pub builds : Assoc Build
  pub saved : Option (List Build)
  pub hub : Option Hub
  pub seq : ℕ

pub data Failure : Type 0 where
  invocation_id_required worktree_required needs_id_or_pid : Failure

pub data Result (A : Type 0) : Type 0 where
  ok : A → Result A
  err : Failure → Result A

-- `New`.
unfoldable pub new_registry : Bool → Option Hub → Registry
new_registry has_store hub = record {
  builds = [];
  saved = if has_store then some [] else none;
  hub = hub;
  seq = 0;
}

unfoldable pub persist : Registry → Build → Registry
persist r b = record r { saved = elim r.saved [ none ↦ none | some rows ↦ some (rows ++ b ∷ []) ] }

-- `Broadcast`: the registry's number, and its time where the event has none.
unfoldable pub broadcast_event : Registry → Event → Time → Registry
broadcast_event r ev now =
    let numbered = record ev {
      seq = suc r.seq;
      ts = elim ev.ts [ none ↦ format_time now | some t ↦ some t ];
    } in
    record r {
      hub = elim r.hub [ none ↦ none | some h ↦ some (broadcast h numbered) ];
      seq = elim r.hub [ none ↦ r.seq | some h ↦ suc r.seq ];
    }

unfoldable pub broadcast_build : Registry → Build → Time → Registry
broadcast_build r b now =
    let ev : Event = record {
      type = event_build;
      seq = suc r.seq;
      build = some (to_api b now);
      builds = [];
      ts = format_time now;
      alert = none;
    } in
    record r {
      hub = elim r.hub [ none ↦ none | some h ↦ some (broadcast h ev) ];
      seq = elim r.hub [ none ↦ r.seq | some h ↦ suc r.seq ];
    }

-- The end of each mutation: the row is written and the event sent.
abbrev pub publish : Registry → Build → Time → Registry
publish r b now = broadcast_build (persist r b) b now

abbrev pub store_build : Registry → GoString → Build → Registry
store_build r id b = record r { builds = insert id b r.builds }

abbrev pub blank_build : GoString → Time → Build
blank_build id now = record {
  invocation_id = id;
  worktree = [];
  worktree_name = [];
  command = [];
  targets = [];
  pid = pos 0;
  state = unset;
  start_time = now;
  end_time = 0;
  exit_code = pos 0;
  source = no_source;
  exe_path = [];
  cwd = [];
  git_dir = [];
  last_seen = 0;
  cache_hit_ratio = none;
  profile_url = [];
}

abbrev pub source_set : Source → Bool
source_set no_source = false
source_set _ = true

-- The updates that `Register` makes to the stored build.
unfoldable pub register_merge : Build → Build → Build
register_merge stored b = record stored {
  worktree = b.worktree;
  targets = if is_empty b.targets then stored.targets else b.targets;
  pid = if is_zero b.pid then stored.pid else b.pid;
  source =
      if source_set b.source
      then b.source
      else if source_set stored.source
      then stored.source
      else registered;
  state = if is_terminal stored.state then stored.state else running;
}

unfoldable pub stored_or_new : Registry → GoString → Time → Build
stored_or_new r id now = elim (lookup id r.builds) [ none ↦ blank_build id now | some b ↦ b ]

unfoldable pub register : Registry → Build → Time → Registry × Result Build
register r b now =
    let stored = register_merge (stored_or_new r b.invocation_id now) b in
    if is_empty b.invocation_id
    then (r, err invocation_id_required)
    else if is_empty b.worktree
    then (r, err worktree_required)
    else (publish (store_build r b.invocation_id stored) stored now, ok stored)

-- The updates that `Deregister` makes to a build that is not terminal.
unfoldable pub finish : Build → (exit_code : ℤ) → Time → Build
finish b exit_code now = record b {
  state = if is_zero exit_code then finished else failed;
  exit_code = exit_code;
  end_time = now;
}

unfoldable pub deregister :
    Registry → GoString → (exit_code : ℤ) → Time → Registry × Result (Option Build)
deregister r id exit_code now =
    if is_empty id then (r, err invocation_id_required) else elim (lookup id r.builds) [
      | none ↦ (r, ok none)
      | some b ↦ if is_terminal b.state then (r, ok (some b)) else (
        publish (store_build r id (finish b exit_code now)) (finish b exit_code now) now,
        ok (some (finish b exit_code now)),
      )
    ]

-- `Get` and `FindByInvocationID`.
unfoldable pub get_build : Registry → GoString → Option Build
get_build r id = lookup id r.builds
