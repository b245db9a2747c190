-- ===== src/Events/Tests.antt =====
-- A client among the mutations of a small registry.
use bazel_broker.Common.{
  ◌≡◌, refl, false, Option, none, some, List, [], ◌∷◌, lit, str_eq, decimal, lookup, insert, pos,
}
use bazel_broker.Build.{
  running, is_terminal, registered, Build, Event, elapsed, milliseconds, format_time, to_api,
}
use bazel_broker.Hub.{Hub, new_hub, subscribe, broadcast, deliver_all, read_next}
use bazel_broker.Registry.{
  Registry, new_registry, persist, broadcast_build, blank_build, register_merge, stored_or_new,
  register, finish, deregister,
}
use bazel_broker.Registry.Reports.{values, insert_newest_api, sort_newest_api, snapshot_api}
use bazel_broker.Registry.Lifecycle.{registers, deregisters, change}
use bazel_broker.Cli.Watch.{insert_builds, apply_event, apply_all}
use bazel_broker.Events.{
  Connection, snapshot_frame, subscribe_client, connect, buffer_of, write_frame, receive_closed,
  receive_event, pump_hub, pump,
}
use bazel_broker.Events.View.{Mirrors}
use bazel_broker.Events.Sync.{
  mutates, pumps, move, moves, view_after, moves-IsSynced, connect-IsSynced, client-Mirrors,
}
use bazel_broker.Events.Reordered.{overtaken, overtaken-stale}
use bazel_broker.Events.Missed.{missed_end}

program : Unit {0}
unfolding str_eq decimal lookup insert is_terminal elapsed milliseconds format_time to_api new_hub
    subscribe broadcast deliver_all read_next new_registry persist broadcast_build register_merge
    stored_or_new register finish deregister values insert_newest_api sort_newest_api snapshot_api
    change insert_builds apply_event apply_all snapshot_frame subscribe_client connect buffer_of
    write_frame receive_closed receive_event pump_hub pump move moves
program = tt

abbrev build_one : Build
build_one = record (blank_build (lit "b1") 0) { worktree = lit "/w"; pid = pos 7 }

abbrev empty_registry : Registry
empty_registry = new_registry false (some new_hub)

abbrev session : Registry × Connection
session =
    moves (connect empty_registry 90) (
      mutates (registers build_one 100) ∷ pumps ∷ mutates (deregisters (lit "b1") (pos 0) 120) ∷ [])

abbrev hub_of : Option Hub → Hub
hub_of none = new_hub
hub_of (some h) = h

abbrev events_of : Option (List Event) → List Event
events_of none = []
events_of (some evs) = evs

abbrev session_hub : Hub
session_hub = hub_of session.0.hub

abbrev pending : List Event
pending = events_of (buffer_of session.1.sub session_hub.subs)

client-Mirrors_example : Mirrors (view_after session.1 pending) session.0.builds
unfolding program
client-Mirrors_example =
    client-Mirrors empty_registry new_hub session_hub 90
      (mutates (registers build_one 100)
        ∷ pumps
        ∷ mutates (deregisters (lit "b1") (pos 0) 120)
        ∷ [])
      pending refl tt (tt, tt) refl refl

abbrev busy : Registry
busy = change empty_registry (registers build_one 100)

abbrev late : Registry
late = (deregister busy (lit "b1") (pos 1) 120).0

missed_end_example :
    (buffer_of
        (subscribe_client late (snapshot_frame busy 110)).1.sub
        (hub_of (subscribe_client late (snapshot_frame busy 110)).0.hub).subs
      ≡ some [])
    × ¬ Mirrors (view_after (subscribe_client late (snapshot_frame busy 110)).1 []) late.builds
unfolding program
missed_end_example =
    missed_end busy (hub_of busy.hub)
      (hub_of (subscribe_client late (snapshot_frame busy 110)).0.hub) 110 120 (lit "b1") (pos 1)
      (record build_one { state = running; start_time = 100; source = registered }) refl tt
      ((refl, tt), (refl, tt)) refl refl refl refl

-- The build that registers and ends, whose end is sent first.
abbrev live_one : Build
live_one = record build_one { state = running; start_time = 100; source = registered }

abbrev started : Registry × Connection
started = moves (connect empty_registry 90) (mutates (registers build_one 100) ∷ [])

abbrev mixed : Registry
mixed = overtaken started.0 (lit "b1") live_one (finish live_one (pos 0) 120) 110 120

overtaken-stale_example :
    ¬ Mirrors
      (view_after started.1 (events_of (buffer_of started.1.sub (hub_of mixed.hub).subs)))
      mixed.builds
unfolding program
overtaken-stale_example =
    overtaken-stale started.0 started.1 (lit "b1") live_one (finish live_one (pos 0) 120) 110 120
      (hub_of mixed.hub) (events_of (buffer_of started.1.sub (hub_of mixed.hub).subs))
      (moves-IsSynced (connect empty_registry 90) (mutates (registers build_one 100) ∷ [])
        (connect-IsSynced empty_registry new_hub 90 refl tt (tt, tt)))
      refl (λ e. cc) refl refl
