-- ===== src/Metrics/Tests.antt =====
-- The metrics of one message, and an alert on a small history.
use mathlib.Core.List.Perm
use bazel_broker.Common.{◌≡◌, refl, none, some, [], ◌∷◌, lit, str_eq}
use bazel_broker.Metrics.{
  ActionSummary, BuildMetrics, cache_busting, low_cache_hit, no_alert, cache_hit_ratio, add_runner,
  add_runners, extract_summary, extract_timing, extract_metrics, AlertConfig, with_defaults,
  insert_up, sort_up, entry, median, evaluate_alert,
}
use bazel_broker.Metrics.Laws.{sum_of, evaluate_alert-perm}
use bazel_broker.Bep.Stream.{blank_row}

abbrev summary : ActionSummary
summary = record {
  actions_created = 9;
  actions_executed = 6;
  runner_count =
      record { name = lit "internal"; exec_kind = []; count = 3 }
      ∷ record { name = lit "disk cache hit"; exec_kind = []; count = 4 }
      ∷ record { name = lit "darwin-sandbox"; exec_kind = []; count = 12 }
      ∷ [];
  action_data = [];
}

abbrev message : BuildMetrics
message = record {
  action_summary = some summary;
  timing_metrics = none;
  targets_configured = some 5;
  packages_loaded = none;
  peak_heap = none;
}

program : Unit {0}
unfolding str_eq cache_hit_ratio add_runner add_runners extract_summary extract_timing
    extract_metrics with_defaults insert_up sort_up entry median evaluate_alert sum_of
program = tt

a_quarter : cache_hit_ratio (extract_metrics blank_row (some message)) ≡ some 250000
unfolding program
a_quarter = refl

abbrev config : AlertConfig
config = record { floor = 0; delta = 0; min_procs = 0 }

drops : evaluate_alert 600000 500 (900000 ∷ 700000 ∷ []) config ≡ no_alert
unfolding program
drops = refl

falls : evaluate_alert 500000 500 (900000 ∷ 700000 ∷ []) config ≡ cache_busting
unfolding program
falls = refl

is_low : evaluate_alert 400000 500 [] config ≡ low_cache_hit
unfolding program
is_low = refl

evaluate_alert-perm_example :
    evaluate_alert 500000 500 (700000 ∷ 900000 ∷ []) config
    ≡ evaluate_alert 500000 500 (900000 ∷ 700000 ∷ []) config
evaluate_alert-perm_example =
    evaluate_alert-perm 500000 500 (700000 ∷ 900000 ∷ []) (900000 ∷ 700000 ∷ []) config
      (Perm.swap 900000 700000 [])
