-- ===== src/Store/MetricsLaws.antt =====
-- What the transactions are relied on for, and the metrics of an invocation after a write and a read.
use mathlib.Core.List.Perm
use mathlib.Core.List.{Perm, perm_middle, append-nil}
use bazel_broker.Common.{
  ℕ, ◌≡◌, refl, sym, ap, subst, ◌∙◌, Bool, true, false, not, none, some, List, [], ◌∷◌, ◌++◌, map,
  GoString, All, ◌==◌, arith,
}
use bazel_broker.Metrics.{Row, RunnerCount, Mnemonic, Alert, no_alert, low_cache_hit, cache_busting}
use bazel_broker.Store.Sql.{SqlResult, done, failed_with, >>=-eq-done, done-injective}
use bazel_broker.Store.Metrics.{
  MetricsRow, RunnerRow, Statement, upsert_row, delete_runners, insert_runner, delete_mnemonics,
  insert_mnemonic, MetricsDatabase, null_str, string_of, null_int, int_of, bool_to_int, null_alert,
  alert_of, metrics_row, runner_row, read_runner, read_metrics, runner_statements,
  mnemonic_statements, exec_all, upsert_metrics, get_metrics,
}

abbrev pub on_rows : Statement → Bool
on_rows (upsert_row row) = true
on_rows _ = false

abbrev pub on_runners : Statement → Bool
on_runners (delete_runners id) = true
on_runners (insert_runner id rc) = true
on_runners _ = false

abbrev pub on_mnemonics : Statement → Bool
on_mnemonics (delete_mnemonics id) = true
on_mnemonics (insert_mnemonic id m) = true
on_mnemonics _ = false

-- A query finds the entries, in some order.
abbrev pub Finds : {A : Type 0} → SqlResult (List A) → List A → Type 0
Finds (done ys) xs = Perm ys xs
Finds (failed_with e) xs = ⊥

-- Each statement does to its own table what it says, and nothing to the other tables; the start and the end
-- of a transaction change nothing that a query finds.
pub record IsTransactional (D : MetricsDatabase) : Type 0 where
  pub find-upsert :
      (db db' : D.Db) (row : MetricsRow)
      → D.exec db (upsert_row row) ≡ done db'
      → D.find_metrics db' row.invocation_id ≡ done (some row)
  pub find-other :
      (db db' : D.Db) (s : Statement) (id : GoString)
      → D.exec db s ≡ done db'
      → on_rows s ≡ false
      → D.find_metrics db' id ≡ D.find_metrics db id
  pub find-commit :
      (db db' : D.Db) (id : GoString)
      → D.commit db ≡ done db'
      → D.find_metrics db' id ≡ D.find_metrics db id
  pub runners-delete :
      (db db' : D.Db) (id : GoString)
      → D.exec db (delete_runners id) ≡ done db'
      → Finds (D.runners_of db' id) []
  pub runners-insert :
      (db db' : D.Db) (id : GoString) (rc : RunnerRow) (xs : List RunnerRow)
      → D.exec db (insert_runner id rc) ≡ done db'
      → Finds (D.runners_of db id) xs
      → Finds (D.runners_of db' id) (rc ∷ xs)
  pub runners-other :
      (db db' : D.Db) (s : Statement) (id : GoString)
      → D.exec db s ≡ done db'
      → on_runners s ≡ false
      → D.runners_of db' id ≡ D.runners_of db id
  pub runners-commit :
      (db db' : D.Db) (id : GoString)
      → D.commit db ≡ done db'
      → D.runners_of db' id ≡ D.runners_of db id
  pub mnemonics-delete :
      (db db' : D.Db) (id : GoString)
      → D.exec db (delete_mnemonics id) ≡ done db'
      → Finds (D.mnemonics_of db' id) []
  pub mnemonics-insert :
      (db db' : D.Db) (id : GoString) (m : Mnemonic) (xs : List Mnemonic)
      → D.exec db (insert_mnemonic id m) ≡ done db'
      → Finds (D.mnemonics_of db id) xs
      → Finds (D.mnemonics_of db' id) (m ∷ xs)
  pub mnemonics-commit :
      (db db' : D.Db) (id : GoString)
      → D.commit db ≡ done db'
      → D.mnemonics_of db' id ≡ D.mnemonics_of db id

Finds-trans :
    {A : Type 0} (m : SqlResult (List A)) (xs ys : List A) → Finds m xs → Perm xs ys → Finds m ys
Finds-trans (done zs) xs ys f p = Perm.trans f p
Finds-trans (failed_with e) xs ys f p = elim f [ ]

-- The loops of insertions: what a query finds afterwards, and what stays.
module _ (D : MetricsDatabase) (law : IsTransactional D) where
  insert_runners :
      (db db' : D.Db) (id : GoString) (rcs : List RunnerCount) (xs : List RunnerRow)
      → exec_all D db (runner_statements id rcs) ≡ done db'
      → Finds (D.runners_of db id) xs
      → Finds (D.runners_of db' id) (map runner_row rcs ++ xs)
  unfolding exec_all runner_statements
  insert_runners db db' id [] xs h f =
      subst (λ (d : D.Db). Finds (D.runners_of d id) xs) (done-injective db db' h) f
  insert_runners db db' id (rc ∷ rcs) xs h f =
      let (mid, first, rest) = >>=-eq-done (D.exec db (insert_runner id (runner_row rc))) _ h in
      Finds-trans (D.runners_of db' id) (map runner_row rcs ++ runner_row rc ∷ xs)
        (map runner_row (rc ∷ rcs) ++ xs)
        (insert_runners mid db' id rcs (runner_row rc ∷ xs) rest
          (law.runners-insert db mid id (runner_row rc) xs first f))
        (perm_middle (map runner_row rcs) xs)

  insert_mnemonics :
      (db db' : D.Db) (id : GoString) (ms xs : List Mnemonic)
      → exec_all D db (mnemonic_statements id ms) ≡ done db'
      → Finds (D.mnemonics_of db id) xs
      → Finds (D.mnemonics_of db' id) (ms ++ xs)
  unfolding exec_all mnemonic_statements
  insert_mnemonics db db' id [] xs h f =
      subst (λ (d : D.Db). Finds (D.mnemonics_of d id) xs) (done-injective db db' h) f
  insert_mnemonics db db' id (m ∷ ms) xs h f =
      let (mid, first, rest) = >>=-eq-done (D.exec db (insert_mnemonic id m)) _ h in
      Finds-trans (D.mnemonics_of db' id) (ms ++ m ∷ xs) (m ∷ ms ++ xs)
        (insert_mnemonics mid db' id ms (m ∷ xs) rest (law.mnemonics-insert db mid id m xs first f))
        (perm_middle ms xs)

  -- Statements on the children leave the row.
  row_stays :
      (db db' : D.Db) (id : GoString) (ss : List Statement)
      → All (λ s. on_rows s ≡ false) ss
      → exec_all D db ss ≡ done db'
      → D.find_metrics db' id ≡ D.find_metrics db id
  unfolding exec_all
  row_stays db db' id [] a h = ap (λ d. D.find_metrics d id) (sym (done-injective db db' h))
  row_stays db db' id (s ∷ ss) a h =
      let (mid, first, rest) = >>=-eq-done (D.exec db s) _ h in
      row_stays mid db' id ss a.1 rest ∙ law.find-other db mid s id first a.0

  runners_stay :
      (db db' : D.Db) (id : GoString) (ss : List Statement)
      → All (λ s. on_runners s ≡ false) ss
      → exec_all D db ss ≡ done db'
      → D.runners_of db' id ≡ D.runners_of db id
  unfolding exec_all
  runners_stay db db' id [] a h = ap (λ d. D.runners_of d id) (sym (done-injective db db' h))
  runners_stay db db' id (s ∷ ss) a h =
      let (mid, first, rest) = >>=-eq-done (D.exec db s) _ h in
      runners_stay mid db' id ss a.1 rest ∙ law.runners-other db mid s id first a.0

stored_row :
    (D : MetricsDatabase) (law : IsTransactional D) (db db' : D.Db) (r : Row) (raw : GoString)
    → D.exec db (upsert_row (metrics_row r raw)) ≡ done db'
    → D.find_metrics db' r.invocation_id ≡ done (some (metrics_row r raw))
unfolding metrics_row
stored_row D law db db' r raw h = law.find-upsert db db' (metrics_row r raw) h

runners_off_rows :
    (id : GoString) (rcs : List RunnerCount)
    → All (λ s. on_rows s ≡ false) (runner_statements id rcs)
unfolding runner_statements
runners_off_rows id [] = tt
runners_off_rows id (rc ∷ rcs) = (refl, runners_off_rows id rcs)

mnemonics_off :
    (id : GoString) (ms : List Mnemonic)
    → All (λ s. on_rows s ≡ false) (mnemonic_statements id ms)
      × All (λ s. on_runners s ≡ false) (mnemonic_statements id ms)
unfolding mnemonic_statements
mnemonics_off id [] = (tt, tt)
mnemonics_off id (m ∷ ms) = let (a, b) = mnemonics_off id ms in ((refl, a), (refl, b))

string_of-null_str : (s : GoString) → string_of (null_str s) ≡ s
unfolding string_of null_str
string_of-null_str [] = refl
string_of-null_str (c ∷ s) = refl

int_of-null_int : (v : ℕ) → int_of (null_int v) ≡ v
unfolding int_of null_int
int_of-null_int v = ground arith

finish-null_int :
    (v : ℕ) → (elim (null_int v) [ none ↦ false | some w ↦ not (w == 0) ]) ≡ not (v == 0)
unfolding null_int
finish-null_int v = ground arith

success-bool_to_int : (b : Bool) → (bool_to_int b == 1) ≡ b
unfolding bool_to_int
success-bool_to_int true = refl
success-bool_to_int false = refl

alert_of-null_alert : (a : Alert) → alert_of (null_alert a) ≡ a
unfolding alert_of null_alert
alert_of-null_alert no_alert = refl
alert_of-null_alert low_cache_hit = refl
alert_of-null_alert cache_busting = refl

runner-read : (rcs : List RunnerCount) → map read_runner (map runner_row rcs) ≡ rcs
unfolding read_runner runner_row
runner-read [] = refl
runner-read (rc ∷ rcs) = rw (string_of-null_str rc.exec_kind, runner-read rcs) refl

-- The row as `GetMetrics` gives it back: it says that there are metrics, and that the build finished where
-- the time of the end is set.
abbrev pub reread : Row → Row
reread r = record r { has_metrics = true; has_finish = not (r.finished_at == 0) }

read_metrics-metrics_row :
    (r : Row) (raw : GoString) (runners : List RunnerRow) (mnemonics : List Mnemonic)
    → read_metrics r.invocation_id (metrics_row r raw) runners mnemonics
      ≡ record (reread r) { runner_counts = map read_runner runners; mnemonics = mnemonics }
unfolding read_metrics metrics_row
read_metrics-metrics_row r raw runners mnemonics =
    rw
      (
        read_metrics,
        metrics_row,
        string_of-null_str r.worktree,
        string_of-null_str r.bep_path,
        string_of-null_str r.profile_path,
        string_of-null_str r.summary_line,
        int_of-null_int r.started_at,
        int_of-null_int r.finished_at,
        finish-null_int r.finished_at,
        success-bool_to_int r.success,
        alert_of-null_alert r.alert,
      )
      refl

opened :
    (D : MetricsDatabase) (db : D.Db) (id : GoString) (row : MetricsRow) (xs : List RunnerRow)
    (ms : List Mnemonic)
    → D.find_metrics db id ≡ done (some row)
    → Finds (D.runners_of db id) xs
    → Finds (D.mnemonics_of db id) ms
    → (ys : List RunnerRow) × (ns : List Mnemonic) × (get_metrics D db id
        ≡ done (some (read_metrics id row ys ns, string_of row.json)))
      × Perm ys xs
      × Perm ns ms
unfolding get_metrics
opened D db id row xs ms e f g =
    let (ys, here, p) = found (D.runners_of db id) xs f in
    let (ns, there, q) = found (D.mnemonics_of db id) ms g in
    (ys, ns, rw (e, here, there, get_metrics) refl, p, q)
  where
    found :
        {A : Type 0} (m : SqlResult (List A)) (xs : List A)
        → Finds m xs
        → (ys : List A) × (m ≡ done ys) × Perm ys xs
    found (done ys) xs p = (ys, refl, p)
    found (failed_with e) xs p = elim p [ ]

read_back :
    (D : MetricsDatabase) (db' : D.Db) (r : Row) (raw : GoString)
    → D.find_metrics db' r.invocation_id ≡ done (some (metrics_row r raw))
    → Finds (D.runners_of db' r.invocation_id) (map runner_row r.runner_counts ++ [])
    → Finds (D.mnemonics_of db' r.invocation_id) (r.mnemonics ++ [])
    → (found : Row) × (get_metrics D db' r.invocation_id ≡ done (some (found, raw)))
      × (found
          ≡ record (reread r) { runner_counts = found.runner_counts; mnemonics = found.mnemonics })
      × Perm found.runner_counts r.runner_counts
      × Perm found.mnemonics r.mnemonics
unfolding metrics_row
read_back D db' r raw e f g =
    let (ys, ns, read, p, q) =
      opened D db' r.invocation_id (metrics_row r raw) (map runner_row r.runner_counts ++ [])
        (r.mnemonics ++ []) e f g in
    let same = read_metrics-metrics_row r raw ys ns in
    let raw_same = string_of-null_str raw in
    (
      record (reread r) { runner_counts = map read_runner ys; mnemonics = ns },
      read ∙ ap (λ z. done (some z)) (rw (same, raw_same) refl),
      refl,
      subst (Perm (map read_runner ys))
          (ap (map read_runner) (append-nil (map runner_row r.runner_counts))
            ∙ runner-read r.runner_counts)
          (Perm.map read_runner p),
      subst (Perm ns) (append-nil r.mnemonics) q,
    )

-- The metrics of an invocation that were written are read back under its id, with the same raw JSON: all the
-- figures, times and texts as they were, the runner counts and the mnemonics in some order, earlier ones of
-- the same id gone. The read row always says that there are metrics, and that the build finished where the
-- time of its end is set. (The write succeeded; the statements do what they say.)
pub get-upsert_metrics :
    (D : MetricsDatabase) (db db' : D.Db) (r : Row) (raw : GoString)
    → IsTransactional D
    → upsert_metrics D db r raw ≡ done db'
    → (found : Row) × (get_metrics D db' r.invocation_id ≡ done (some (found, raw)))
      × (found
          ≡ record (reread r) { runner_counts = found.runner_counts; mnemonics = found.mnemonics })
      × Perm found.runner_counts r.runner_counts
      × Perm found.mnemonics r.mnemonics
unfolding upsert_metrics
get-upsert_metrics D db db' r raw law h =
    let id = r.invocation_id in
    let (t0, h0, k0) = >>=-eq-done (D.begin db) _ h in
    let (t1, h1, k1) = >>=-eq-done (D.exec t0 (upsert_row (metrics_row r raw))) _ k0 in
    let (t2, h2, k2) = >>=-eq-done (D.exec t1 (delete_runners id)) _ k1 in
    let (t3, h3, k3) = >>=-eq-done (exec_all D t2 (runner_statements id r.runner_counts)) _ k2 in
    let (t4, h4, k4) = >>=-eq-done (D.exec t3 (delete_mnemonics id)) _ k3 in
    let (t5, h5, k5) = >>=-eq-done (exec_all D t4 (mnemonic_statements id r.mnemonics)) _ k4 in
    let (off, off') = mnemonics_off id r.mnemonics in
    let row : D.find_metrics db' id ≡ done (some (metrics_row r raw)) =
      law.find-commit t5 db' id k5
      ∙ row_stays D law t4 t5 id (mnemonic_statements id r.mnemonics) off h5
      ∙ law.find-other t3 t4 (delete_mnemonics id) id h4 refl
      ∙ row_stays D law t2 t3 id (runner_statements id r.runner_counts)
          (runners_off_rows id r.runner_counts) h3
      ∙ law.find-other t1 t2 (delete_runners id) id h2 refl
      ∙ stored_row D law t0 t1 r raw h1 in
    let runners_here : D.runners_of db' id ≡ D.runners_of t3 id =
      law.runners-commit t5 db' id k5
      ∙ runners_stay D law t4 t5 id (mnemonic_statements id r.mnemonics) off' h5
      ∙ law.runners-other t3 t4 (delete_mnemonics id) id h4 refl in
    let runners =
      insert_runners D law t2 t3 id r.runner_counts [] h3 (law.runners-delete t1 t2 id h2) in
    let mnemonics =
      insert_mnemonics D law t4 t5 id r.mnemonics [] h5 (law.mnemonics-delete t3 t4 id h4) in
    read_back D db' r raw row
      (subst (λ m. Finds m (map runner_row r.runner_counts ++ [])) (sym runners_here) runners)
      (subst (λ m. Finds m (r.mnemonics ++ [])) (sym (law.mnemonics-commit t5 db' id k5)) mnemonics)
