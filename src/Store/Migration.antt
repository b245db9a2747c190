-- ===== src/Store/Migration.antt =====
-- The columns and the version of the database after `migrate`.
use bazel_broker.Common.{
  ℕ, zero, suc, ◌+◌, ◌≤◌, ◌<◌, ◌≡◌, refl, sym, ap, subst, ◌∙◌, ◌⊎◌, inl, inr, Bool, true, false,
  Option, none, some, ltb, leb, if◌then◌else◌, Bool-cases, Option-cases, arith,
}
use bazel_broker.Store.Sql.{SqlError, done, and_then, and_then-none}
use bazel_broker.Store.{
  Database, Ddl, add_column, schema_sql, schema_v2_sql, stamp, is_dup_column, add_columns,
  migrate_v2, migrate_from, migrate, schema_version, column_count,
}

-- A column is there once it was added or reported as a duplicate, no statement of the migration takes one
-- away, and the stamp is the version.
pub record IsMigrating (D : Database) (has : D.Db → ℕ → Bool) : Type 0 where
  pub adds :
      (db : D.Db) (c : ℕ)
      → (D.exec_ddl db (add_column c)).0 ≡ none
      → has (D.exec_ddl db (add_column c)).1 c ≡ true
  pub duplicates :
      (db : D.Db) (c : ℕ) (e : SqlError)
      → (D.exec_ddl db (add_column c)).0 ≡ some e
      → is_dup_column e ≡ true
      → has (D.exec_ddl db (add_column c)).1 c ≡ true
  pub keeps : (db : D.Db) (s : Ddl) (c : ℕ) → has db c ≡ true → has (D.exec_ddl db s).1 c ≡ true
  pub stamps :
      (db : D.Db) (n : ℕ)
      → (D.exec_ddl db (stamp n)).0 ≡ none
      → D.user_version (D.exec_ddl db (stamp n)).1 ≡ done n

module _ (D : Database) (has : D.Db → ℕ → Bool) (law : IsMigrating D has) where
  -- One column, when no error comes of it.
  add_columns-next :
      (db : D.Db) (from left : ℕ)
      → (add_columns D db from (suc left)).0 ≡ none
      → (add_columns D db from (suc left)
          ≡ add_columns D (D.exec_ddl db (add_column from)).1 (suc from) left)
        × (has (D.exec_ddl db (add_column from)).1 from ≡ true)
  unfolding add_columns
  add_columns-next db from left h = elim (Option-cases (D.exec_ddl db (add_column from)).0) [
    | inl e ↦ (rw (e, add_columns) refl, law.adds db from e)
    | inr (err, e) ↦ elim (Bool-cases (is_dup_column err)) [
      | inl d ↦ (rw (e, d, add_columns) refl, law.duplicates db from err e d)
      | inr d ↦ absurd (ground arith)
    ]
  ]

  added :
      (db : D.Db) (from left c : ℕ)
      → (add_columns D db from left).0 ≡ none
      → (has db c ≡ true) ⊎ ((from ≤ c) × (c < from + left))
      → has (add_columns D db from left).1 c ≡ true
  added db from zero c h (inl k) = unfold add_columns in k
  added db from zero c h (inr k) = absurd (omega (arith, k.0, k.1))
  added db from (suc left) c h k =
      let (same, there) = add_columns-next db from left h in
      let db' = (D.exec_ddl db (add_column from)).1 in
      subst (λ (x : Option SqlError × D.Db). has x.1 c ≡ true) (sym same)
        (added db' (suc from) left c (ap (λ (x : Option SqlError × D.Db). x.0) (sym same) ∙ h)
          (still db from left c k there))
    where
      still :
          (db : D.Db) (from left c : ℕ)
          → (has db c ≡ true) ⊎ ((from ≤ c) × (c < from + suc left))
          → has (D.exec_ddl db (add_column from)).1 from ≡ true
          → (has (D.exec_ddl db (add_column from)).1 c ≡ true)
            ⊎ ((suc from ≤ c) × (c < suc from + left))
      still db from left c (inl k) there = inl (law.keeps db (add_column from) c k)
      still db from left c (inr (le, lt)) there = elim (Bool-cases (ltb from c)) [
        | inl e ↦ inr (ground arith, omega (arith, lt))
        | inr e ↦
            inl (subst (λ x. has (D.exec_ddl db (add_column from)).1 x ≡ true) (ground arith) there)
      ]

  migrate_v2-has :
      (db : D.Db) (c : ℕ)
      → (migrate_v2 D db).0 ≡ none
      → c < column_count
      → has (migrate_v2 D db).1 c ≡ true
  unfolding migrate_v2
  migrate_v2-has db c h k =
      let (e, same) =
        and_then-none (add_columns D db 0 column_count) (λ d. D.exec_ddl d schema_v2_sql) h in
      subst (λ (y : Option SqlError × D.Db). has y.1 c ≡ true) (sym same)
        (law.keeps (add_columns D db 0 column_count).1 schema_v2_sql c
          (added db 0 column_count c e (inr (omega arith, k))))

  migrate-old :
      (db : D.Db) (v : ℕ)
      → D.user_version db ≡ done v
      → v < schema_version
      → migrate D db ≡ migrate_from D db v
  unfolding migrate
  migrate-old db v e lt = rw (e, old v lt, migrate) refl
    where
      old : (v : ℕ) → v < schema_version → leb schema_version v ≡ false
      old v lt = ground arith

  migrate-current :
      (db : D.Db) → D.user_version db ≡ done schema_version → migrate D db ≡ (none, db)
  unfolding migrate
  migrate-current db e = rw (e, migrate) refl

  -- The last step of a migration without an error stamps a database with every column.
  migrate_from-stamped :
      (db : D.Db) (v c : ℕ)
      → v < schema_version
      → (migrate_from D db v).0 ≡ none
      → c < column_count
      → (x : D.Db) × (migrate_from D db v ≡ D.exec_ddl x (stamp schema_version)) × (has x c ≡ true)
  unfolding migrate_from
  migrate_from-stamped db v c lt h k =
      let first : Option SqlError × D.Db =
        if ltb v 1 then D.exec_ddl db schema_sql else (none, db) in
      let second : D.Db → Option SqlError × D.Db =
        λ d. if ltb v 2 then migrate_v2 D d else (none, d) in
      let (e, same) =
        and_then-none (and_then first second) (λ d. D.exec_ddl d (stamp schema_version)) h in
      let (f, then_v2) = and_then-none first second e in
      let upgraded : and_then first second ≡ migrate_v2 D first.1 =
        then_v2 ∙ two v lt (migrate_v2 D first.1) (none, first.1) in
      (
        (and_then first second).1,
        same,
        subst (λ (y : Option SqlError × D.Db). has y.1 c ≡ true) (sym upgraded)
            (migrate_v2-has first.1 c (ap (λ (y : Option SqlError × D.Db). y.0) (sym upgraded) ∙ e)
              k),
      )
    where
      two : {A : Type 0} (v : ℕ) → v < schema_version → (x y : A) → (if ltb v 2 then x else y) ≡ x
      two v lt x y = ground arith

  -- Whatever the version, 0 or 1, that the database starts with, when `migrate` reports no error then all the
  -- columns of the second schema are there, those of an interrupted run included, the version is the
  -- current one, and migrating again changes nothing. (A column that was added or is a duplicate is there
  -- from then on, and the stamp is what the version reads.)
  pub migrate_complete :
      (db : D.Db) (v c : ℕ)
      → D.user_version db ≡ done v
      → v < schema_version
      → (migrate D db).0 ≡ none
      → c < column_count
      → (has (migrate D db).1 c ≡ true)
        × (D.user_version (migrate D db).1 ≡ done schema_version)
        × (migrate D (migrate D db).1 ≡ (none, (migrate D db).1))
  migrate_complete db v c e lt h k =
      let same : migrate D db ≡ migrate_from D db v = migrate-old db v e lt in
      let (x, stamped, there) =
        migrate_from-stamped db v c lt (ap (λ (y : Option SqlError × D.Db). y.0) (sym same) ∙ h)
          k in
      let end = same ∙ stamped in
      let version : D.user_version (migrate D db).1 ≡ done schema_version =
        subst (λ (y : Option SqlError × D.Db). D.user_version y.1 ≡ done schema_version) (sym end)
          (law.stamps x schema_version (ap (λ (y : Option SqlError × D.Db). y.0) (sym end) ∙ h)) in
      (
        subst (λ (y : Option SqlError × D.Db). has y.1 c ≡ true) (sym end)
            (law.keeps x (stamp schema_version) c there),
        version,
        migrate-current (migrate D db).1 version,
      )
