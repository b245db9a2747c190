-- ===== src/Bep/Stream.antt =====
-- internal/bep/dispatch.go: the state of one tailed event file. Its registry is the one of Registry, its
-- sink is the list of the rows written. The parser of a line, the path of a profile and the ratios that
-- the database recalls are arguments. A time of an event is a count of milliseconds, 0 where it is absent.
pub mod Rows
pub mod Builds
use bazel_broker.Common.{
  ℕ, suc, ◌*◌, map, Bool, true, false, ◌&&◌, ◌||◌, not, Option, none, some, List, [], ◌∷◌, ◌++◌,
  GoString, is_empty, ℤ, pos, is_zero, ◌==◌, if◌then◌else◌,
}
use bazel_broker.Admission.Types.{Time}
use bazel_broker.Admission.Targets.{trim_space}
use bazel_broker.Build.{running, finished, failed, discovered, Build, unix_milli}
use bazel_broker.Registry.{Registry, blank_build, get_build}
use bazel_broker.Registry.Upsert.{upsert}
use bazel_broker.Metrics.{
  BuildMetrics, Row, no_alert, AlertConfig, extract_metrics, cache_hit_ratio, evaluate_alert,
}

pub data TestStatus : Type 0 where
  passed flaky other_status : TestStatus

pub record Started : Type 0 where
  pub uuid : GoString
  pub command : GoString
  pub start_time : Option ℕ
  pub start_millis : ℕ
  pub working_directory : GoString

pub record Finished : Type 0 where
  pub code : ℤ
  pub finish_time : Option ℕ
  pub finish_millis : ℕ

-- The payloads on which `dispatch` switches.
pub data Payload : Type 0 where
  started : Started → Payload
  test_result : TestStatus → Payload
  build_metrics : BuildMetrics → Payload
  build_finished : Finished → Payload
  other_payload : Payload

pub record BuildEvent : Type 0 where
  pub payload : Payload
  pub pattern : List GoString
  pub last_message : Bool

-- `streamConfig`, with the code that the stream calls.
pub record StreamConfig : Type 0 where
  pub path : GoString
  pub worktree : GoString
  pub alert : AlertConfig
  pub profile_url : GoString → GoString
  pub join_profile : GoString → GoString
  pub recent_ratios : List Row → (worktree exclude_id : GoString) → List ℕ
  pub decode : GoString → Option BuildEvent

-- `stream`, with the registry, the rows that the sink has and the rows given to `onFinalize`.
pub record Stream : Type 0 where
  pub reg : Registry
  pub rows : List (Row × Option BuildMetrics)
  pub announced : List Row
  pub row : Row
  pub command : GoString
  pub patterns : List GoString
  pub raw_metrics : Option BuildMetrics
  pub bound : Bool
  pub finalized : Bool
  pub parse_errs : ℕ

abbrev pub blank_row : Row
blank_row = record {
  invocation_id = [];
  worktree = [];
  bep_path = [];
  profile_path = [];
  started_at = 0;
  finished_at = 0;
  exit_code = pos 0;
  success = false;
  has_finish = false;
  actions_created = 0;
  actions_executed = 0;
  disk_cache_hits = 0;
  remote_cache_hits = 0;
  executed_runners = 0;
  processes_total = 0;
  runner_counts = [];
  mnemonics = [];
  summary_line = [];
  wall_ms = 0;
  cpu_ms = 0;
  analysis_ms = 0;
  exec_ms = 0;
  targets_configured = 0;
  packages_loaded = 0;
  peak_heap_bytes = 0;
  tests_total = 0;
  tests_failed = 0;
  alert = no_alert;
  has_metrics = false;
}

module _ (cfg : StreamConfig) where
  -- `profilePathFor`.
  unfoldable pub profile_path_for : GoString → GoString
  profile_path_for worktree = if is_empty worktree then [] else cfg.join_profile worktree

  unfoldable pub reset_state : Stream → Stream
  reset_state s = record s {
    row = record blank_row {
      bep_path = cfg.path;
      worktree = cfg.worktree;
      profile_path = profile_path_for cfg.worktree;
    };
    raw_metrics = none;
    bound = false;
    finalized = false;
  }

  -- The stream that `watchFile` starts with, on a registry.
  unfoldable pub new_stream : Registry → Stream
  new_stream reg = reset_state (record {
    reg = reg;
    rows = [];
    announced = [];
    row = blank_row;
    command = [];
    patterns = [];
    raw_metrics = none;
    bound = false;
    finalized = false;
    parse_errs = 0;
  })

  -- The build that `pushCommandTargets` hands to the registry.
  abbrev pub target_update : Stream → Build
  target_update s = record (blank_build s.row.invocation_id 0) {
    command = s.command;
    targets = s.patterns;
  }

  unfoldable pub push_command_targets : Stream → Time → Stream
  push_command_targets s now =
      if not s.bound || is_empty s.row.invocation_id
      then s
      else if is_empty s.command && is_empty s.patterns
      then s
      else record s { reg = (upsert s.reg (target_update s) now).0 }

  -- The build that `bindBuild` hands to the registry.
  abbrev pub stub : Stream → Time → Build
  stub s now = record (blank_build s.row.invocation_id now) {
    worktree = s.row.worktree;
    command = s.command;
    state = running;
    source = discovered;
  }

  -- The part of `bindBuild` that makes a build for the metrics to refer to.
  unfoldable pub stub_build : Stream → Time → Registry
  stub_build s now = elim (get_build s.reg s.row.invocation_id) [
    | some b ↦ s.reg
    | none ↦ (upsert s.reg (stub s now) now).0
  ]

  unfoldable pub bind_build : Stream → Time → Stream
  bind_build s now =
      if s.bound || is_empty s.row.invocation_id
      then s
      else push_command_targets (record s { bound = true; reg = stub_build s now }) now

  -- The alert of the row that is finalized.
  unfoldable pub alerted_row : Stream → Row
  alerted_row s = elim (cache_hit_ratio s.row) [
    | none ↦ s.row
    | some ratio ↦ record s.row {
      alert =
          evaluate_alert ratio s.row.processes_total
            (cfg.recent_ratios (map (λ r. r.0) s.rows) s.row.worktree s.row.invocation_id)
            cfg.alert;
    }
  ]

  -- What `finalize` tells the registry.
  unfoldable pub enrichment : Row → Time → Build
  enrichment row now = record (blank_build row.invocation_id 0) {
    state = if row.has_finish && not row.success then failed else finished;
    exit_code = row.exit_code;
    end_time = if row.finished_at == 0 then now else unix_milli row.finished_at;
    profile_url = cfg.profile_url row.invocation_id;
    cache_hit_ratio = cache_hit_ratio row;
  }

  unfoldable pub finalize : Stream → Time → Stream
  finalize s now =
      let row = alerted_row s in
      if s.finalized || is_empty s.row.invocation_id then s else record s {
        finalized = true;
        row = row;
        rows = s.rows ++ (row, s.raw_metrics) ∷ [];
        reg = (upsert s.reg (enrichment row now) now).0;
        announced = s.announced ++ row ∷ [];
      }

  abbrev pub time_or_millis : Option ℕ → (millis old : ℕ) → ℕ
  time_or_millis (some t) millis old = t
  time_or_millis none millis old = if millis == 0 then old else millis

  -- The row after `BuildStarted`.
  unfoldable pub started_row : Row → Started → Row
  started_row row st = record row {
    invocation_id = st.uuid;
    started_at = time_or_millis st.start_time st.start_millis row.started_at;
    worktree = if is_empty st.working_directory then row.worktree else st.working_directory;
    profile_path =
        if is_empty st.working_directory
        then row.profile_path
        else profile_path_for st.working_directory;
  }

  abbrev pub is_success : TestStatus → Bool
  is_success passed = true
  is_success flaky = true
  is_success other_status = false

  -- The switch of `dispatch` on the payload.
  unfoldable pub fold_payload : Stream → Payload → Time → Stream
  fold_payload s (started st) now =
      bind_build (record s { row = started_row s.row st; command = st.command }) now
  fold_payload s (test_result status) now = record s {
    row = record s.row {
      tests_total = suc s.row.tests_total;
      tests_failed = if is_success status then s.row.tests_failed else suc s.row.tests_failed;
    };
  }
  fold_payload s (build_metrics m) now = record s {
    row = extract_metrics s.row (some m);
    raw_metrics = some m;
  }
  fold_payload s (build_finished fin) now = record s {
    row = record s.row {
      has_finish = true;
      exit_code = fin.code;
      success = is_zero fin.code;
      finished_at = time_or_millis fin.finish_time fin.finish_millis s.row.finished_at;
    };
  }
  fold_payload s other_payload now = s

  unfoldable pub dispatch : Stream → BuildEvent → Time → Stream
  dispatch s ev now =
      let s1 = fold_payload s ev.payload now in
      let s2 =
        if is_empty ev.pattern
        then s1
        else push_command_targets (record s1 { patterns = ev.pattern }) now in
      if ev.last_message then finalize s2 now else s2

  -- `consume`: a line that does not parse is skipped.
  unfoldable pub consume : Stream → GoString → Time → Stream
  consume s text now =
      let raw = trim_space text in
      if is_empty raw then s else elim (cfg.decode raw) [
        | none ↦ record s { parse_errs = suc s.parse_errs }
        | some ev ↦ dispatch s ev now
      ]

  -- What `watchFile` does between two tails: the file was truncated or replaced.
  unfoldable pub restart : Stream → Time → Stream
  restart s now = reset_state (finalize s now)

  -- The lines of a tail, each with the time at which it is read.
  unfoldable pub consume_all : Stream → List (GoString × Time) → Stream
  consume_all s [] = s
  consume_all s ((text, now) ∷ rest) = consume_all (consume s text now) rest
