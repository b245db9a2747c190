-- ===== src/Metrics.antt =====
-- internal/metrics/metrics.go and alert.go: what is read off the build metrics of an invocation, and the
-- alert on its cache-hit ratio. A ratio, a float64 in the source, is a number of millionths, rounded down;
-- the counts of a message are natural numbers. A sub-message that a message lacks is `none`.
pub mod Laws
mod Tests
use bazel_broker.Common.{
  ℕ, ◌+◌, ◌*◌, ◌/◌, ◌%◌, ◌-◌, Bool, true, false, not, Option, none, some, List, [], ◌∷◌, length,
  GoString, lit, str_eq, ℤ, pos, ltb, leb, ◌==◌, if◌then◌else◌,
}

pub record RunnerCount : Type 0 where
  pub name : GoString
  pub exec_kind : GoString
  pub count : ℕ

pub record Mnemonic : Type 0 where
  pub mnemonic : GoString
  pub actions_created : ℕ
  pub actions_executed : ℕ
  pub system_time_ms : ℕ
  pub user_time_ms : ℕ

-- The parts of the messages of the build event stream that the source reads.
pub record ActionSummary : Type 0 where
  pub actions_created : ℕ
  pub actions_executed : ℕ
  pub runner_count : List RunnerCount
  pub action_data : List Mnemonic

pub record TimingMetrics : Type 0 where
  pub wall_time_ms : ℕ
  pub cpu_time_ms : ℕ
  pub analysis_time_ms : ℕ
  pub execution_time_ms : ℕ

pub record BuildMetrics : Type 0 where
  pub action_summary : Option ActionSummary
  pub timing_metrics : Option TimingMetrics
  pub targets_configured : Option ℕ
  pub packages_loaded : Option ℕ
  pub peak_heap : Option ℕ

pub data Alert : Type 0 where
  no_alert low_cache_hit cache_busting : Alert

pub record Row : Type 0 where
  pub invocation_id : GoString
  pub worktree : GoString
  pub bep_path : GoString
  pub profile_path : GoString
  pub started_at : ℕ
  pub finished_at : ℕ
  pub exit_code : ℤ
  pub success : Bool
  pub has_finish : Bool
  pub actions_created : ℕ
  pub actions_executed : ℕ
  pub disk_cache_hits : ℕ
  pub remote_cache_hits : ℕ
  pub executed_runners : ℕ
  pub processes_total : ℕ
  pub runner_counts : List RunnerCount
  pub mnemonics : List Mnemonic
  pub summary_line : GoString
  pub wall_ms : ℕ
  pub cpu_ms : ℕ
  pub analysis_ms : ℕ
  pub exec_ms : ℕ
  pub targets_configured : ℕ
  pub packages_loaded : ℕ
  pub peak_heap_bytes : ℕ
  pub tests_total : ℕ
  pub tests_failed : ℕ
  pub alert : Alert
  pub has_metrics : Bool

-- The whole of a ratio.
abbrev pub unit_ratio : ℕ
unit_ratio = 1000000

-- `Row.CacheHitRatio`.
unfoldable pub cache_hit_ratio : Row → Option ℕ
cache_hit_ratio r =
    let denom = r.disk_cache_hits + r.executed_runners in
    if denom == 0 then none else some (r.disk_cache_hits * unit_ratio / denom)

-- The sums of the loop over the runner counts.
pub record Sums : Type 0 where
  pub disk_hits : ℕ
  pub remote_hits : ℕ
  pub executed : ℕ
  pub total : ℕ
  pub sum_all : ℕ

-- The body of the loop.
unfoldable pub add_runner : Sums → RunnerCount → Sums
add_runner s rc =
    let n = rc.count in
    if str_eq rc.name (lit "total")
    then record s { total = n }
    else if str_eq rc.name (lit "internal")
    then record s { sum_all = s.sum_all + n }
    else if str_eq rc.name (lit "disk cache hit")
    then record s { disk_hits = s.disk_hits + n; sum_all = s.sum_all + n }
    else if str_eq rc.name (lit "remote cache hit")
    then record s {
      remote_hits = s.remote_hits + n;
      executed = s.executed + n;
      sum_all = s.sum_all + n;
    }
    else record s { executed = s.executed + n; sum_all = s.sum_all + n }

unfoldable pub add_runners : Sums → List RunnerCount → Sums
add_runners s [] = s
add_runners s (rc ∷ rest) = add_runners (add_runner s rc) rest

abbrev pub no_sums : Sums
no_sums = record { disk_hits = 0; remote_hits = 0; executed = 0; total = 0; sum_all = 0 }

abbrev pub value_or : Option ℕ → ℕ → ℕ
value_or none old = old
value_or (some new) old = new

-- The part of `ExtractMetrics` on the action summary.
unfoldable pub extract_summary : Option ActionSummary → Row → Row
extract_summary none r = r
extract_summary (some a) r =
    let s = add_runners no_sums a.runner_count in
    record r {
      actions_created = a.actions_created;
      actions_executed = a.actions_executed;
      runner_counts = a.runner_count;
      disk_cache_hits = s.disk_hits;
      remote_cache_hits = s.remote_hits;
      executed_runners = s.executed;
      processes_total = if ltb 0 s.total then s.total else s.sum_all;
      mnemonics = a.action_data;
    }

unfoldable pub extract_timing : Option TimingMetrics → Row → Row
extract_timing none r = r
extract_timing (some t) r = record r {
  wall_ms = t.wall_time_ms;
  cpu_ms = t.cpu_time_ms;
  analysis_ms = t.analysis_time_ms;
  exec_ms = t.execution_time_ms;
}

-- `Row.ExtractMetrics`.
unfoldable pub extract_metrics : Row → Option BuildMetrics → Row
extract_metrics r none = r
extract_metrics r (some m) =
    let r' = extract_timing m.timing_metrics (extract_summary m.action_summary r) in
    record r' {
      targets_configured = value_or m.targets_configured r.targets_configured;
      packages_loaded = value_or m.packages_loaded r.packages_loaded;
      peak_heap_bytes = value_or m.peak_heap r.peak_heap_bytes;
      has_metrics = true;
    }

pub record AlertConfig : Type 0 where
  pub floor : ℕ
  pub delta : ℕ
  pub min_procs : ℕ

abbrev or_default : ℕ → ℕ → ℕ
or_default given default = if given == 0 then default else given

unfoldable pub with_defaults : AlertConfig → AlertConfig
with_defaults c = record {
  floor = or_default c.floor 500000;
  delta = or_default c.delta 200000;
  min_procs = or_default c.min_procs 200;
}

-- `sort.Float64s`: ascending.
unfoldable pub insert_up : ℕ → List ℕ → List ℕ
insert_up x [] = x ∷ []
insert_up x (y ∷ ys) = if leb x y then x ∷ y ∷ ys else y ∷ insert_up x ys

unfoldable pub sort_up : List ℕ → List ℕ
sort_up [] = []
sort_up (x ∷ xs) = insert_up x (sort_up xs)

-- The entry at an index; the indices of `median` are in range.
unfoldable pub entry : List ℕ → ℕ → ℕ
entry [] i = 0
entry (x ∷ xs) i = if i == 0 then x else entry xs (i - 1)

unfoldable pub median : List ℕ → Option ℕ
median xs =
    let sorted = sort_up xs in
    let n = length sorted in
    if n == 0
    then none
    else if n % 2 == 1
    then some (entry sorted (n / 2))
    else some ((entry sorted (n / 2 - 1) + entry sorted (n / 2)) / 2)

unfoldable pub evaluate_alert : (ratio processes_total : ℕ) (history : List ℕ) → AlertConfig → Alert
evaluate_alert ratio processes_total history cfg =
    let c = with_defaults cfg in
    let dropped : Bool = elim (median history) [
      | none ↦ false
      | some b ↦ ltb (ratio + c.delta) b
    ] in
    if ltb processes_total c.min_procs
    then no_alert
    else if dropped
    then cache_busting
    else if ltb ratio c.floor
    then low_cache_hit
    else no_alert
