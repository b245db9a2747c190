-- ===== src/Store/Metrics.antt =====
-- internal/store/metrics.go: the metrics of an invocation, with its runner counts and its mnemonics, and
-- the reports on the disk cache. The database is a parameter: the statements of a transaction over a state
-- of its own, and the queries. A column that may be NULL is an option; a ratio is a number of millionths.
use bazel_broker.Common.{
  ℕ, Bool, true, false, not, Option, none, some, List, [], ◌∷◌, map, GoString, is_empty, ℤ, pos,
  leb_ℤ, ◌==◌, if◌then◌else◌,
}
use bazel_broker.Metrics.{Row, RunnerCount, Mnemonic, Alert, no_alert, cache_hit_ratio}
use bazel_broker.Store.Sql.{SqlResult, done, ◌>>=◌}

-- A row of the table `metrics`.
pub record MetricsRow : Type 0 where
  pub invocation_id : GoString
  pub actions_total : ℕ
  pub actions_cached : ℕ
  pub cache_hit_ratio : Option ℕ
  pub wall_ms : ℕ
  pub json : Option GoString
  pub worktree : Option GoString
  pub started_at : Option ℕ
  pub finished_at : Option ℕ
  pub exit_code : ℤ
  pub success : ℕ
  pub actions_executed : ℕ
  pub disk_cache_hits : ℕ
  pub remote_cache_hits : ℕ
  pub executed_runners : ℕ
  pub processes_total : ℕ
  pub cpu_time_ms : ℕ
  pub analysis_ms : ℕ
  pub execution_ms : ℕ
  pub targets_configured : ℕ
  pub packages_loaded : ℕ
  pub peak_heap_bytes : ℕ
  pub tests_total : ℕ
  pub tests_failed : ℕ
  pub summary_line : Option GoString
  pub profile_path : Option GoString
  pub bep_path : Option GoString
  pub alert : Option Alert

pub record RunnerRow : Type 0 where
  pub name : GoString
  pub exec_kind : Option GoString
  pub count : ℕ

pub data Statement : Type 0 where
  upsert_row : MetricsRow → Statement
  delete_runners : GoString → Statement
  insert_runner : GoString → RunnerRow → Statement
  delete_mnemonics : GoString → Statement
  insert_mnemonic : GoString → Mnemonic → Statement

pub record DiskReport : Type 0 where
  pub taken_at : ℤ
  pub cache_dir : GoString
  pub total_bytes : ℤ
  pub file_count : ℤ
  pub oldest_mtime : ℤ
  pub gc_freed : ℤ

pub record MetricsDatabase : Type 1 where
  pub Db : Type 0
  pub begin : Db → SqlResult Db
  pub exec : Db → Statement → SqlResult Db
  pub commit : Db → SqlResult Db
  pub find_metrics : Db → GoString → SqlResult (Option MetricsRow)
  pub runners_of : Db → GoString → SqlResult (List RunnerRow)
  pub mnemonics_of : Db → GoString → SqlResult (List Mnemonic)
  pub newest_rows : Db → (limit : ℤ) → SqlResult (List MetricsRow)
  pub newest_ratios : Db → (worktree exclude : GoString) → (limit : ℤ) → SqlResult (List ℕ)
  pub insert_report : Db → DiskReport → SqlResult Db
  pub newest_report : Db → SqlResult (Option DiskReport)

-- `nullStr`, and the `String` of a `sql.NullString`.
unfoldable pub null_str : GoString → Option GoString
null_str s = if is_empty s then none else some s

unfoldable pub string_of : Option GoString → GoString
string_of none = []
string_of (some s) = s

-- `nullInt`, and the `Int64` of a `sql.NullInt64`.
unfoldable pub null_int : ℕ → Option ℕ
null_int v = if v == 0 then none else some v

unfoldable pub int_of : Option ℕ → ℕ
int_of none = 0
int_of (some v) = v

-- `boolToInt`.
unfoldable pub bool_to_int : Bool → ℕ
bool_to_int b = if b then 1 else 0

-- `nullStr` of an alert, and back.
unfoldable pub null_alert : Alert → Option Alert
null_alert no_alert = none
null_alert a = some a

unfoldable pub alert_of : Option Alert → Alert
alert_of none = no_alert
alert_of (some a) = a

-- The arguments of the first statement of `UpsertMetrics`.
unfoldable pub metrics_row : Row → (raw_json : GoString) → MetricsRow
metrics_row r raw_json = record {
  invocation_id = r.invocation_id;
  actions_total = r.actions_created;
  actions_cached = r.disk_cache_hits;
  cache_hit_ratio = cache_hit_ratio r;
  wall_ms = r.wall_ms;
  json = null_str raw_json;
  worktree = null_str r.worktree;
  started_at = null_int r.started_at;
  finished_at = null_int r.finished_at;
  exit_code = r.exit_code;
  success = bool_to_int r.success;
  actions_executed = r.actions_executed;
  disk_cache_hits = r.disk_cache_hits;
  remote_cache_hits = r.remote_cache_hits;
  executed_runners = r.executed_runners;
  processes_total = r.processes_total;
  cpu_time_ms = r.cpu_ms;
  analysis_ms = r.analysis_ms;
  execution_ms = r.exec_ms;
  targets_configured = r.targets_configured;
  packages_loaded = r.packages_loaded;
  peak_heap_bytes = r.peak_heap_bytes;
  tests_total = r.tests_total;
  tests_failed = r.tests_failed;
  summary_line = null_str r.summary_line;
  profile_path = null_str r.profile_path;
  bep_path = null_str r.bep_path;
  alert = null_alert r.alert;
}

unfoldable pub runner_row : RunnerCount → RunnerRow
runner_row rc = record { name = rc.name; exec_kind = null_str rc.exec_kind; count = rc.count }

unfoldable pub read_runner : RunnerRow → RunnerCount
read_runner row = record { name = row.name; exec_kind = string_of row.exec_kind; count = row.count }

-- What `GetMetrics` makes of a row and of its children.
unfoldable pub read_metrics : GoString → MetricsRow → List RunnerRow → List Mnemonic → Row
read_metrics id row runners mnemonics = record {
  invocation_id = id;
  worktree = string_of row.worktree;
  bep_path = string_of row.bep_path;
  profile_path = string_of row.profile_path;
  started_at = int_of row.started_at;
  finished_at = int_of row.finished_at;
  exit_code = row.exit_code;
  success = row.success == 1;
  has_finish = elim row.finished_at [ none ↦ false | some v ↦ not (v == 0) ];
  actions_created = row.actions_total;
  actions_executed = row.actions_executed;
  disk_cache_hits = row.disk_cache_hits;
  remote_cache_hits = row.remote_cache_hits;
  executed_runners = row.executed_runners;
  processes_total = row.processes_total;
  runner_counts = map read_runner runners;
  mnemonics = mnemonics;
  summary_line = string_of row.summary_line;
  wall_ms = row.wall_ms;
  cpu_ms = row.cpu_time_ms;
  analysis_ms = row.analysis_ms;
  exec_ms = row.execution_ms;
  targets_configured = row.targets_configured;
  packages_loaded = row.packages_loaded;
  peak_heap_bytes = row.peak_heap_bytes;
  tests_total = row.tests_total;
  tests_failed = row.tests_failed;
  alert = alert_of row.alert;
  has_metrics = true;
}

-- What `ListMetrics` makes of a row.
unfoldable pub summary_row : MetricsRow → Row
summary_row row = record (read_metrics row.invocation_id row [] []) {
  bep_path = [];
  profile_path = [];
  cpu_ms = 0;
  analysis_ms = 0;
  exec_ms = 0;
  targets_configured = 0;
  packages_loaded = 0;
  peak_heap_bytes = 0;
  tests_total = 0;
  tests_failed = 0;
}

unfoldable pub summary_rows : List MetricsRow → List Row
summary_rows [] = []
summary_rows (row ∷ rows) = summary_row row ∷ summary_rows rows

abbrev pub limit_or : (limit default : ℤ) → ℤ
limit_or limit default = if leb_ℤ limit (pos 0) then default else limit

unfoldable pub runner_statements : GoString → List RunnerCount → List Statement
runner_statements id [] = []
runner_statements id (rc ∷ rcs) = insert_runner id (runner_row rc) ∷ runner_statements id rcs

unfoldable pub mnemonic_statements : GoString → List Mnemonic → List Statement
mnemonic_statements id [] = []
mnemonic_statements id (m ∷ ms) = insert_mnemonic id m ∷ mnemonic_statements id ms

module _ (D : MetricsDatabase) where
  unfoldable pub exec_all : D.Db → List Statement → SqlResult D.Db
  exec_all tx [] = done tx
  exec_all tx (s ∷ ss) = do tx' ← D.exec tx s; exec_all tx' ss

  -- `UpsertMetrics`. A statement that fails ends it, and the deferred `Rollback` leaves the database as it
  -- was.
  unfoldable pub upsert_metrics : D.Db → Row → (raw_json : GoString) → SqlResult D.Db
  upsert_metrics db r raw_json = do
    t0 ← D.begin db
    t1 ← D.exec t0 (upsert_row (metrics_row r raw_json))
    t2 ← D.exec t1 (delete_runners r.invocation_id)
    t3 ← exec_all t2 (runner_statements r.invocation_id r.runner_counts)
    t4 ← D.exec t3 (delete_mnemonics r.invocation_id)
    t5 ← exec_all t4 (mnemonic_statements r.invocation_id r.mnemonics)
    D.commit t5

  -- `GetMetrics`: the row and the raw JSON.
  unfoldable pub get_metrics : D.Db → GoString → SqlResult (Option (Row × GoString))
  get_metrics db id = do
    found ← D.find_metrics db id
    elim found [
      | none ↦ done none
      | some row ↦ do
        runners ← D.runners_of db id
        mnemonics ← D.mnemonics_of db id
        done (some (read_metrics id row runners mnemonics, string_of row.json))
    ]

  -- `ListMetrics`.
  unfoldable pub list_metrics : D.Db → (limit : ℤ) → SqlResult (List Row)
  list_metrics db limit = do
    rows ← D.newest_rows db (limit_or limit (pos 50))
    done (summary_rows rows)

  -- `RecentRatiosForWorktree`.
  unfoldable pub recent_ratios_for_worktree :
      D.Db → (worktree exclude : GoString) → (n : ℤ) → SqlResult (List ℕ)
  recent_ratios_for_worktree db worktree exclude n =
      D.newest_ratios db worktree exclude (limit_or n (pos 10))

  -- `InsertDiskReport` and `LatestDiskReport`.
  unfoldable pub insert_disk_report : D.Db → DiskReport → SqlResult D.Db
  insert_disk_report db r = D.insert_report db r

  unfoldable pub latest_disk_report : D.Db → SqlResult (Option DiskReport)
  latest_disk_report db = D.newest_report db
