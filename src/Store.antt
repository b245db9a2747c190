-- ===== src/Store.antt =====
-- internal/store/store.go: builds in an SQL database. The database is a parameter: the source's
-- statements over a state of its own, of which a failed one leaves the state as it was. The texts of
-- `json.Marshal` and `json.Unmarshal` for a list of strings are a parameter, too. A nil list is the empty
-- one.
pub mod Sql
pub mod Laws
pub mod Migration
pub mod Metrics
pub mod MetricsLaws
pub mod Memory
mod Tests
use bazel_broker.Common.{
  ℕ, zero, suc, ◌+◌, ◌*◌, ◌-◌, ◌/◌, Bool, true, false, Option, none, some, List, [], ◌∷◌, GoString,
  ℤ, pos, negsuc, is_zero, ltb, leb, ◌==◌, if◌then◌else◌,
}
use bazel_broker.Admission.Types.{Time}
use bazel_broker.Build.{State, Source, Build, unix_epoch}
use bazel_broker.Store.Sql.{
  SqlError, duplicate_column, bad_json, SqlResult, done, failed_with, ◌>>=◌, and_then,
}

-- A row of the table `builds`.
pub record BuildRow : Type 0 where
  pub invocation_id : GoString
  pub worktree : GoString
  pub targets : GoString
  pub pid : ℤ
  pub state : State
  pub start_time : ℤ
  pub end_time : ℤ
  pub exit_code : ℤ
  pub source : Source

-- The statements of the migration: the first schema, a column by its place in the list, the tables of the
-- second schema, and the stamp.
pub data Ddl : Type 0 where
  schema_sql : Ddl
  add_column : ℕ → Ddl
  schema_v2_sql : Ddl
  stamp : ℕ → Ddl

pub record Database : Type 1 where
  pub Db : Type 0
  pub user_version : Db → SqlResult ℕ
  pub exec_ddl : Db → Ddl → Option SqlError × Db
  pub upsert_row : Db → BuildRow → SqlResult Db
  pub mark_row : Db → GoString → State → (exit end : ℤ) → SqlResult Db
  pub recent_rows : Db → (limit : ℤ) → SqlResult (List BuildRow)
  pub find_row : Db → GoString → SqlResult (Option BuildRow)

pub record JsonCodec : Type 0 where
  pub encode : List GoString → GoString
  pub decode : GoString → Option (List GoString)

-- `schemaVersion`, and the length of `addColumnsV2`.
abbrev pub schema_version : ℕ
schema_version = 2

abbrev pub column_count : ℕ
column_count = 22

-- `Time.UnixMilli`, which rounds down.
unfoldable pub millis_of : Time → ℤ
millis_of t =
    if leb unix_epoch t
    then pos ((t - unix_epoch) / 1000000)
    else negsuc ((unix_epoch - t - 1) / 1000000)

unfoldable pub to_millis : Time → ℤ
to_millis t = if t == 0 then pos 0 else millis_of t

unfoldable pub from_millis : ℤ → Time
from_millis (pos n) = if n == 0 then 0 else unix_epoch + n * 1000000
from_millis (negsuc n) = unix_epoch - suc n * 1000000

-- The arguments of the statement of `UpsertBuild`.
unfoldable pub row_of : JsonCodec → Build → BuildRow
row_of json b = record {
  invocation_id = b.invocation_id;
  worktree = b.worktree;
  targets = json.encode b.targets;
  pid = b.pid;
  state = b.state;
  start_time = to_millis b.start_time;
  end_time = to_millis b.end_time;
  exit_code = b.exit_code;
  source = b.source;
}

-- `scanBuild`.
unfoldable pub scan_build : JsonCodec → BuildRow → SqlResult Build
scan_build json row = elim (json.decode row.targets) [
  | none ↦ failed_with bad_json
  | some targets ↦ done (record {
    invocation_id = row.invocation_id;
    worktree = row.worktree;
    worktree_name = [];
    command = [];
    targets = targets;
    pid = row.pid;
    state = row.state;
    start_time = from_millis row.start_time;
    end_time = from_millis row.end_time;
    exit_code = row.exit_code;
    source = row.source;
    exe_path = [];
    cwd = [];
    git_dir = [];
    last_seen = 0;
    cache_hit_ratio = none;
    profile_url = [];
  })
]

unfoldable pub scan_all : JsonCodec → List BuildRow → SqlResult (List Build)
scan_all json [] = done []
scan_all json (row ∷ rows) = do b ← scan_build json row; bs ← scan_all json rows; done (b ∷ bs)

module _ (D : Database) (json : JsonCodec) where
  -- `UpsertBuild`.
  unfoldable pub upsert_build : D.Db → Build → SqlResult D.Db
  upsert_build db b = D.upsert_row db (row_of json b)

  -- `MarkTerminal`.
  unfoldable pub mark_terminal :
      D.Db → GoString → State → (exit : ℤ) → (end : Time) → SqlResult D.Db
  mark_terminal db id state exit end = D.mark_row db id state exit (to_millis end)

  -- `RecentBuilds`.
  unfoldable pub recent_builds : D.Db → (limit : ℤ) → SqlResult (List Build)
  recent_builds db limit = do rows ← D.recent_rows db limit; scan_all json rows

  -- `GetBuild`.
  unfoldable pub get_saved_build : D.Db → GoString → SqlResult (Option Build)
  get_saved_build db id = do
    found ← D.find_row db id
    elim found [ none ↦ done none | some row ↦ do b ← scan_build json row; done (some b) ]

abbrev pub is_dup_column : SqlError → Bool
is_dup_column duplicate_column = true
is_dup_column _ = false

module _ (D : Database) where
  -- The loop of `migrateV2` over the columns from the given one.
  unfoldable pub add_columns : D.Db → (from left : ℕ) → Option SqlError × D.Db
  add_columns db from zero = (none, db)
  add_columns db from (suc left) =
      let (err, db') = D.exec_ddl db (add_column from) in
      let rest = add_columns db' (suc from) left in
      elim err [ none ↦ rest | some e ↦ if is_dup_column e then rest else (some e, db') ]

  unfoldable pub migrate_v2 : D.Db → Option SqlError × D.Db
  migrate_v2 db = and_then (add_columns db 0 column_count) (λ d. D.exec_ddl d schema_v2_sql)

  -- The steps of `migrate` from a version on: each runs where those before it did not fail.
  unfoldable pub migrate_from : D.Db → (version : ℕ) → Option SqlError × D.Db
  migrate_from db version =
      and_then
        (and_then (if ltb version 1 then D.exec_ddl db schema_sql else (none, db))
          (λ d. if ltb version 2 then migrate_v2 d else (none, d)))
        (λ d. D.exec_ddl d (stamp schema_version))

  -- `migrate`.
  unfoldable pub migrate : D.Db → Option SqlError × D.Db
  migrate db = elim (D.user_version db) [
    | failed_with e ↦ (some e, db)
    | done v ↦ if leb schema_version v then (none, db) else migrate_from db v
  ]
