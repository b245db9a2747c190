-- ===== src/Store/Tests.antt =====
-- The theorems on the store at a database in memory, and at a text for a list of strings.
use mathlib.Core.List.{Perm}
use bazel_broker.Common.{
  ℕ, zero, suc, ◌≡◌, refl, ap, inl, inr, true, false, none, some, List, [], ◌∷◌, lit, str_eq,
  GoString, lookup, insert, pos, ◌∙◌, arith,
}
use bazel_broker.Build.{finished, running, registered, Build}
use bazel_broker.Metrics.{Row, no_alert, cache_hit_ratio}
use bazel_broker.Store.Sql.{done}
use bazel_broker.Store.{
  JsonCodec, row_of, scan_build, upsert_build, mark_terminal, get_saved_build, add_columns,
  migrate_v2, migrate_from, migrate, millis_of, to_millis, from_millis,
}
use bazel_broker.Store.Laws.{IsCodec, persisted, get-upsert_build}
use bazel_broker.Store.Migration.{migrate_complete}
use bazel_broker.Store.Metrics.{
  exec_all, runner_statements, mnemonic_statements, null_str, null_int, null_alert, bool_to_int,
  metrics_row, runner_row, upsert_metrics, get_metrics,
}
use bazel_broker.Store.MetricsLaws.{reread, get-upsert_metrics}
use bazel_broker.Store.Memory.{
  Tables, memory_database, memory_database-IsLawful, memory_database-IsMigrating, update, run_ddl,
  has_entry, run_statement, of_id, without, MetricsTables, memory_metrics,
  memory_metrics-IsTransactional,
}
use bazel_broker.Registry.{blank_build}

abbrev encode_string : GoString → GoString → GoString
encode_string [] rest = 0 ∷ rest
encode_string (c ∷ s) rest = suc c ∷ encode_string s rest

abbrev encode_list : List GoString → GoString
encode_list [] = []
encode_list (s ∷ l) = encode_string s (encode_list l)

abbrev extend : ℕ → List GoString → List GoString
extend c [] = (c ∷ []) ∷ []
extend c (s ∷ l) = (c ∷ s) ∷ l

abbrev decode_list : GoString → List GoString
decode_list [] = []
decode_list (zero ∷ s) = [] ∷ decode_list s
decode_list (suc c ∷ s) = extend c (decode_list s)

abbrev codec : JsonCodec
codec = record { encode = encode_list; decode = λ s. some (decode_list s) }

decode-string : (s rest : GoString) → decode_list (encode_string s rest) ≡ s ∷ decode_list rest
decode-string [] rest = refl
decode-string (c ∷ s) rest = ap (extend c) (decode-string s rest)

decode-list : (l : List GoString) → decode_list (encode_list l) ≡ l
decode-list [] = refl
decode-list (s ∷ l) = decode-string s (encode_list l) ∙ ap (λ r. s ∷ r) (decode-list l)

codec-IsCodec : IsCodec codec
codec-IsCodec l = ap some (decode-list l)

abbrev empty : Tables
empty = record { rows = []; version = 1; columns = 3 ∷ [] }

abbrev build_one : Build
build_one = record (blank_build (lit "b1") 62135596801234567890) {
  worktree = lit "/w";
  targets = lit "//a" ∷ lit "//b" ∷ [];
  pid = pos 7;
  state = running;
  source = registered;
}

abbrev stored : Tables
stored = record empty { rows = (lit "b1", row_of codec build_one) ∷ [] }

program : Unit {0}
unfolding lookup insert str_eq update run_ddl has_entry run_statement of_id without add_columns
    migrate_v2 migrate_from migrate row_of upsert_build mark_terminal get_saved_build scan_build
    millis_of to_millis from_millis exec_all runner_statements mnemonic_statements null_str null_int
    null_alert bool_to_int metrics_row runner_row cache_hit_ratio upsert_metrics get_metrics
program = tt

get-upsert_build_example :
    get_saved_build memory_database codec stored (lit "b1") ≡ done (some (persisted build_one))
unfolding program
get-upsert_build_example =
    get-upsert_build memory_database codec empty stored build_one (lit "b1")
      memory_database-IsLawful codec-IsCodec (inr (omega arith)) (inl refl) refl

abbrev ended : Tables
ended = record stored {
  rows =
      (
        lit "b1",
        record (row_of codec build_one) {
          state = finished;
          exit_code = pos 0;
          end_time = pos 5000;
        },
      )
      ∷ [];
}

migrate_complete_example :
    (has_entry (migrate memory_database empty).1.columns 21 ≡ true)
    × (memory_database.user_version (migrate memory_database empty).1 ≡ done 2)
    × (migrate memory_database (migrate memory_database empty).1
        ≡ (none, (migrate memory_database empty).1))
unfolding program
migrate_complete_example =
    migrate_complete memory_database (λ db. has_entry db.columns) memory_database-IsMigrating empty
      1 21 refl (omega arith) refl (omega arith)

abbrev metrics_one : Row
metrics_one = record {
  invocation_id = lit "b1";
  worktree = lit "/w";
  bep_path = [];
  profile_path = [];
  started_at = 10;
  finished_at = 20;
  exit_code = pos 0;
  success = true;
  has_finish = false;
  actions_created = 9;
  actions_executed = 8;
  disk_cache_hits = 3;
  remote_cache_hits = 0;
  executed_runners = 5;
  processes_total = 8;
  runner_counts =
      record { name = lit "disk cache hit"; exec_kind = []; count = 3 }
      ∷ record { name = lit "worker"; exec_kind = lit "Worker"; count = 5 }
      ∷ [];
  mnemonics = [];
  summary_line = [];
  wall_ms = 7;
  cpu_ms = 6;
  analysis_ms = 1;
  exec_ms = 2;
  targets_configured = 1;
  packages_loaded = 1;
  peak_heap_bytes = 100;
  tests_total = 0;
  tests_failed = 0;
  alert = no_alert;
  has_metrics = true;
}

abbrev no_tables : MetricsTables
no_tables = record {
  rows = [];
  runners = (lit "b1", record { name = lit "old"; exec_kind = none; count = 1 }) ∷ [];
  mnemonics = [];
}

abbrev metrics_tables : MetricsTables
metrics_tables = record {
  rows = (lit "b1", metrics_row metrics_one (lit "{}")) ∷ [];
  runners =
      (lit "b1", record { name = lit "worker"; exec_kind = some (lit "Worker"); count = 5 })
      ∷ (lit "b1", record { name = lit "disk cache hit"; exec_kind = none; count = 3 })
      ∷ [];
  mnemonics = [];
}

get-upsert_metrics_example :
    (found : Row) × (get_metrics memory_metrics metrics_tables (lit "b1")
      ≡ done (some (found, lit "{}")))
    × (found ≡ record (reread metrics_one) {
      runner_counts = found.runner_counts;
      mnemonics = found.mnemonics;
    })
    × Perm found.runner_counts metrics_one.runner_counts
    × Perm found.mnemonics []
unfolding program
get-upsert_metrics_example =
    get-upsert_metrics memory_metrics no_tables metrics_tables metrics_one (lit "{}")
      memory_metrics-IsTransactional refl
