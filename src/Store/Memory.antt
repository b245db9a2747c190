-- ===== src/Store/Memory.antt =====
-- Databases in memory, with what the store relies on.
use mathlib.Core.List.Perm
use mathlib.Core.List.{Perm}
use bazel_broker.Common.{
  ℕ, ◌≡◌, refl, sym, ap, subst, Bool, true, false, ◌||◌, Option, none, some, List, [], ◌∷◌,
  GoString, str_eq, str_eq_refl, str_eq_iff, Assoc, lookup, insert, lookup-insert, ◌==◌,
  if◌then◌else◌, arith,
}
use bazel_broker.Metrics.{Mnemonic}
use bazel_broker.Store.Sql.{SqlError, duplicate_column, done, done-injective}
use bazel_broker.Store.{BuildRow, Ddl, schema_sql, add_column, schema_v2_sql, stamp, Database}
use bazel_broker.Store.Laws.{set_end, map_found, IsLawful}
use bazel_broker.Store.Migration.{IsMigrating}
use bazel_broker.Store.Metrics.{
  MetricsRow, RunnerRow, Statement, upsert_row, delete_runners, insert_runner, delete_mnemonics,
  insert_mnemonic, MetricsDatabase,
}
use bazel_broker.Store.MetricsLaws.{on_rows, on_runners, IsTransactional}

pub record Tables : Type 0 where
  pub rows : Assoc BuildRow
  pub version : ℕ
  pub columns : List ℕ

unfoldable pub update : GoString → (BuildRow → BuildRow) → Assoc BuildRow → Assoc BuildRow
update id f [] = []
update id f ((k, row) ∷ m) = (k, if str_eq k id then f row else row) ∷ update id f m

unfoldable pub rows_from : Assoc BuildRow → List BuildRow
rows_from [] = []
rows_from ((k, row) ∷ m) = row ∷ rows_from m

unfoldable pub has_entry : List ℕ → ℕ → Bool
has_entry [] c = false
has_entry (d ∷ ds) c = d == c || has_entry ds c

unfoldable pub run_ddl : Tables → Ddl → Option SqlError × Tables
run_ddl db schema_sql = (none, db)
run_ddl db schema_v2_sql = (none, db)
run_ddl db (stamp n) = (none, record db { version = n })
run_ddl db (add_column c) =
    if has_entry db.columns c
    then (some duplicate_column, db)
    else (none, record db { columns = c ∷ db.columns })

abbrev pub memory_database : Database
memory_database = record {
  Db = Tables;
  user_version = λ db. done db.version;
  exec_ddl = run_ddl;
  upsert_row = λ db row. done (record db { rows = insert row.invocation_id row db.rows });
  mark_row = λ db id state exit end.
      done (record db { rows = update id (set_end state exit end) db.rows });
  recent_rows = λ db limit. done (rows_from db.rows);
  find_row = λ db id. done (lookup id db.rows);
}

lookup-update :
    (id j : GoString) (f : BuildRow → BuildRow) (m : Assoc BuildRow)
    → done (lookup j (update id f m))
      ≡ (if str_eq id j then map_found f (done (lookup j m)) else done (lookup j m))
unfolding lookup update
lookup-update id j f [] = ground arith
lookup-update id j f ((k, row) ∷ m) =
    ground (arith, lookup-update id j f m, str_eq_iff id j, str_eq_iff k j, str_eq_iff k id)

lookup-inserted :
    (id j : GoString) (row : BuildRow) (m : Assoc BuildRow)
    → done (lookup j (insert id row m))
      ≡ (if str_eq id j then done (some row) else done (lookup j m))
lookup-inserted id j row m = ground (arith, lookup-insert id j row m)

pub memory_database-IsLawful : IsLawful memory_database
memory_database-IsLawful = record {
  find-upsert = λ db db' row id h.
      subst
        (λ (d : Tables).
          done (lookup id d.rows)
          ≡ (if str_eq row.invocation_id id then done (some row) else done (lookup id db.rows)))
        (done-injective (record db { rows = insert row.invocation_id row db.rows }) db' h)
        (lookup-inserted row.invocation_id id row db.rows);
  find-mark = λ db db' id j state exit end h.
      subst
        (λ (d : Tables). done (lookup j d.rows) ≡ (
          if str_eq id j
          then map_found (set_end state exit end) (done (lookup j db.rows))
          else done (lookup j db.rows)))
        (done-injective (record db { rows = update id (set_end state exit end) db.rows }) db' h)
        (lookup-update id j (set_end state exit end) db.rows);
}

pub memory_database-IsMigrating : IsMigrating memory_database (λ db. has_entry db.columns)
unfolding run_ddl has_entry
memory_database-IsMigrating = record {
  adds = λ db c h. ground arith;
  duplicates = λ db c e h d. ground arith;
  keeps = λ db s c h. keeps db s c h;
  stamps = λ db n h. refl;
}
  where
    keeps :
        (db : Tables) (s : Ddl) (c : ℕ)
        → has_entry db.columns c ≡ true
        → has_entry (run_ddl db s).1.columns c ≡ true
    keeps db schema_sql c h = h
    keeps db schema_v2_sql c h = h
    keeps db (stamp n) c h = h
    keeps db (add_column d) c h = ground arith

pub record MetricsTables : Type 0 where
  pub rows : Assoc MetricsRow
  pub runners : List (GoString × RunnerRow)
  pub mnemonics : List (GoString × Mnemonic)

module _ {A : Type 0} where
  unfoldable pub of_id : GoString → List (GoString × A) → List A
  of_id id [] = []
  of_id id ((k, x) ∷ l) = if str_eq k id then x ∷ of_id id l else of_id id l

  unfoldable pub without : GoString → List (GoString × A) → List (GoString × A)
  without id [] = []
  without id ((k, x) ∷ l) = if str_eq k id then without id l else (k, x) ∷ without id l

  of_id-without : (id : GoString) (l : List (GoString × A)) → of_id id (without id l) ≡ []
  unfolding of_id without
  of_id-without id [] = refl
  of_id-without id ((k, x) ∷ l) = ground (arith, of_id-without id l)

  of_id-cons :
      (id : GoString) (x : A) (l : List (GoString × A)) (xs : List A)
      → Perm (of_id id l) xs
      → Perm (of_id id ((id, x) ∷ l)) (x ∷ xs)
  unfolding of_id
  of_id-cons id x l xs p = rw (str_eq_refl id) (Perm.cons x p)

unfoldable pub run_statement : MetricsTables → Statement → MetricsTables
run_statement db (upsert_row row) = record db { rows = insert row.invocation_id row db.rows }
run_statement db (delete_runners id) = record db { runners = without id db.runners }
run_statement db (insert_runner id rc) = record db { runners = (id, rc) ∷ db.runners }
run_statement db (delete_mnemonics id) = record db { mnemonics = without id db.mnemonics }
run_statement db (insert_mnemonic id m) = record db { mnemonics = (id, m) ∷ db.mnemonics }

abbrev pub memory_metrics : MetricsDatabase
memory_metrics = record {
  Db = MetricsTables;
  begin = λ db. done db;
  exec = λ db s. done (run_statement db s);
  commit = λ db. done db;
  find_metrics = λ db id. done (lookup id db.rows);
  runners_of = λ db id. done (of_id id db.runners);
  mnemonics_of = λ db id. done (of_id id db.mnemonics);
  newest_rows = λ db limit. done [];
  newest_ratios = λ db worktree exclude limit. done [];
  insert_report = λ db r. done db;
  newest_report = λ db. done none;
}

rows_other :
    (db : MetricsTables) (s : Statement) → on_rows s ≡ false → (run_statement db s).rows ≡ db.rows
unfolding run_statement
rows_other db s h = ground arith

runners_other :
    (db : MetricsTables) (s : Statement)
    → on_runners s ≡ false
    → (run_statement db s).runners ≡ db.runners
unfolding run_statement
runners_other db s h = ground arith

lookup-inserted_same :
    (id : GoString) (row : MetricsRow) (m : Assoc MetricsRow)
    → lookup id (insert id row m) ≡ some row
lookup-inserted_same id row m = ground (arith, lookup-insert id id row m, str_eq_refl id)

pub memory_metrics-IsTransactional : IsTransactional memory_metrics
unfolding run_statement
memory_metrics-IsTransactional = record {
  find-upsert = λ db db' row h.
      subst (λ (d : MetricsTables). done (lookup row.invocation_id d.rows) ≡ done (some row))
        (done-injective (run_statement db (upsert_row row)) db' h)
        (ap done (lookup-inserted_same row.invocation_id row db.rows));
  find-other = λ db db' s id h e.
      subst (λ (d : MetricsTables). done (lookup id d.rows) ≡ done (lookup id db.rows))
        (done-injective (run_statement db s) db' h)
        (ap (λ m. done (lookup id m)) (rows_other db s e));
  find-commit = λ db db' id h.
      ap (λ (d : MetricsTables). done (lookup id d.rows)) (sym (done-injective db db' h));
  runners-delete = λ db db' id h.
      subst (λ (d : MetricsTables). Perm (of_id id d.runners) [])
        (done-injective (run_statement db (delete_runners id)) db' h)
        (subst (λ l. Perm l []) (sym (of_id-without id db.runners)) Perm.rfl);
  runners-insert = λ db db' id rc xs h p.
      subst (λ (d : MetricsTables). Perm (of_id id d.runners) (rc ∷ xs))
        (done-injective (run_statement db (insert_runner id rc)) db' h)
        (of_id-cons id rc db.runners xs p);
  runners-other = λ db db' s id h e.
      subst (λ (d : MetricsTables). done (of_id id d.runners) ≡ done (of_id id db.runners))
        (done-injective (run_statement db s) db' h)
        (ap (λ m. done (of_id id m)) (runners_other db s e));
  runners-commit = λ db db' id h.
      ap (λ (d : MetricsTables). done (of_id id d.runners)) (sym (done-injective db db' h));
  mnemonics-delete = λ db db' id h.
      subst (λ (d : MetricsTables). Perm (of_id id d.mnemonics) [])
        (done-injective (run_statement db (delete_mnemonics id)) db' h)
        (subst (λ l. Perm l []) (sym (of_id-without id db.mnemonics)) Perm.rfl);
  mnemonics-insert = λ db db' id m xs h p.
      subst (λ (d : MetricsTables). Perm (of_id id d.mnemonics) (m ∷ xs))
        (done-injective (run_statement db (insert_mnemonic id m)) db' h)
        (of_id-cons id m db.mnemonics xs p);
  mnemonics-commit = λ db db' id h.
      ap (λ (d : MetricsTables). done (of_id id d.mnemonics)) (sym (done-injective db db' h));
}
