-- ===== src/Bep/Tests.antt =====
-- A stream that ends a build, a rebuild in the same file, and the supervisor of two worktrees.
use bazel_broker.Common.{
  suc, ◌≡◌, ◌≤◌, refl, true, false, none, some, List, [], ◌∷◌, GoString, lit, str_eq, decimal,
  lookup, insert, delete, any, length, arith,
}
use bazel_broker.Admission.Types.{Time}
use bazel_broker.Admission.Targets.{trim_space, trim_left, trim_right, is_space, member}
use bazel_broker.Build.{is_terminal, elapsed, milliseconds, format_time, to_api, Build}
use bazel_broker.Registry.{
  Registry, new_registry, persist, broadcast_build, blank_build, register_merge, stored_or_new,
  register, get_build,
}
use bazel_broker.Registry.Upsert.{find_by_pid, pid_name, upsert_target, upsert_merge, upsert}
use bazel_broker.Registry.Reports.{values, insert_newest, sort_newest, snapshot}
use bazel_broker.Metrics.{cache_hit_ratio, with_defaults, median, sort_up, evaluate_alert}
use bazel_broker.Bep.Stream.{
  StreamConfig, Stream, BuildEvent, Started, started, profile_path_for, reset_state, new_stream,
  push_command_targets, stub_build, bind_build, alerted_row, enrichment, finalize, started_row,
  fold_payload, dispatch, consume, consume_all, restart,
}
use bazel_broker.Bep.Stream.Rows.{Once, consume_all-Once}
use bazel_broker.Bep.Stream.Builds.{finalize_ends, restart-started}
use bazel_broker.Bep.Manager.{
  Manager, Tailer, new_manager, watch, cancel, stop, watching, tailer_exits, active_worktrees,
  watch_all, tear_down, tear_down_all, idle_grace, reconcile,
}
use bazel_broker.Bep.Manager.Watching.{is_active_in, reconcile-watching}
use bazel_broker.Bep.Manager.Idle.{Expired, reconcile_drops}
use bazel_broker.Bep.Manager.Races.{live_tailers, tailer_exits-watch}

abbrev start_event : Started
start_event = record {
  uuid = lit "i1";
  command = lit "build";
  start_time = some 5;
  start_millis = 0;
  working_directory = [];
}

abbrev next_event : Started
next_event = record start_event { uuid = lit "i2" }

abbrev event : BuildEvent
event = record { payload = started start_event; pattern = lit "//a" ∷ []; last_message = true }

abbrev config : StreamConfig
config = record {
  path = lit "/w/bep";
  worktree = lit "/w";
  alert = record { floor = 0; delta = 0; min_procs = 0 };
  profile_url = λ id. id;
  join_profile = λ worktree. worktree;
  recent_ratios = λ rows worktree id. [];
  decode = λ text. some event;
}

program : Unit {0}
unfolding str_eq decimal lookup insert delete trim_space trim_left trim_right is_space member
    is_terminal elapsed milliseconds format_time to_api new_registry persist broadcast_build
    register_merge stored_or_new register get_build find_by_pid pid_name upsert_target upsert_merge
    upsert values insert_newest sort_newest snapshot cache_hit_ratio with_defaults median sort_up
    evaluate_alert profile_path_for reset_state new_stream push_command_targets stub_build
    bind_build alerted_row enrichment finalize started_row fold_payload dispatch consume consume_all
    restart new_manager watch cancel stop watching tailer_exits active_worktrees watch_all tear_down
    tear_down_all reconcile
program = tt

abbrev fresh : Stream
fresh = new_stream config (new_registry true none)

abbrev lines : List (GoString × Time)
lines = (lit "{}", 10) ∷ (lit "{}", 20) ∷ []

one_row : length (consume_all config fresh lines).rows ≡ 1
unfolding program
one_row = refl

consume_all-Once_example : Once config fresh (consume_all config fresh lines)
consume_all-Once_example = consume_all-Once config fresh lines

abbrev bound_stream : Stream
bound_stream = fold_payload config fresh (started start_event) 10

finalize_ends_example :
    (b : Build) × (lookup bound_stream.row.invocation_id
        (finalize config bound_stream 30).reg.builds
      ≡ some b)
    × (is_terminal b.state ≡ true)
unfolding program
finalize_ends_example = finalize_ends config bound_stream 30 refl refl

abbrev ended : Stream
ended = consume_all config fresh lines

restart-started_example :
    (b : Build) × (lookup
        (lit "i2")
        (fold_payload config (restart config ended 40) (started next_event) 50).reg.builds
      ≡ some b)
    × (b.targets ≡ ended.patterns)
unfolding program
restart-started_example = restart-started config ended next_event 40 50 refl refl refl

abbrev busy : Registry
busy =
    (register (new_registry true none) (record (blank_build (lit "b1") 0) { worktree = lit "/w" })
      5).0

abbrev both : Manager
both = watch (watch new_manager (lit "/v")) (lit "/w")

reconcile-watching_example :
    watching (reconcile (new_manager, []) busy 40 idle_grace).0 (lit "/w") ≡ true
unfolding program
reconcile-watching_example =
    reconcile-watching new_manager [] busy 40 idle_grace (lit "/w") refl refl

reconcile_drops_example :
    (any (is_active_in (lit "/v")) (snapshot busy) ≡ false)
    × Expired (lit "/v") 40000000000 idle_grace ((lit "/v", 5) ∷ [])
unfolding program
reconcile_drops_example =
    reconcile_drops both ((lit "/v", 5) ∷ []) busy 40000000000 idle_grace (lit "/v") refl refl refl
      refl

abbrev old_tailer : Tailer
old_tailer = record { number = 0; worktree = lit "/v"; cancelled = true }

tailer_exits-watch_example :
    let m = tailer_exits (watch (stop both (lit "/v")) (lit "/v")) old_tailer in
    (watching m (lit "/v") ≡ false)
    × (1 ≤ live_tailers (lit "/v") m)
    × (suc (live_tailers (lit "/v") m) ≡ live_tailers (lit "/v") (watch m (lit "/v")))
unfolding program
tailer_exits-watch_example = tailer_exits-watch both old_tailer refl (omega arith)
