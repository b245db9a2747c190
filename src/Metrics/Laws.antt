-- ===== src/Metrics/Laws.antt =====
-- The metrics of an invocation and its alert.
use mathlib.Core.List.{Perm, foldr}
use mathlib.Core.List.Perm
use native.Mathlib.Nat.{div-le_of_le-mul}
use bazel_broker.Common.{
  ℕ, ◌+◌, ◌*◌, ◌≤◌, ◌≡◌, refl, sym, ap, ◌∙◌, inl, inr, true, false, Option, none, some, List, [],
  ◌∷◌, GoString, lit, str_eq, str_eq_iff, if◌then◌else◌, arith, Option-cases,
}
use bazel_broker.Metrics.{
  RunnerCount, ActionSummary, BuildMetrics, Row, unit_ratio, cache_hit_ratio, Sums, add_runner,
  add_runners, no_sums, extract_summary, extract_timing, extract_metrics, AlertConfig, insert_up,
  sort_up, median, evaluate_alert,
}

insert_up_comm : (x y : ℕ) (l : List ℕ) → insert_up x (insert_up y l) ≡ insert_up y (insert_up x l)
unfolding insert_up
insert_up_comm x y [] = ground arith
insert_up_comm x y (z ∷ l) = ground (arith, insert_up_comm x y l)

sort_up-foldr : (xs : List ℕ) → sort_up xs ≡ foldr insert_up [] xs
unfolding sort_up
sort_up-foldr [] = refl
sort_up-foldr (x ∷ xs) = ap (insert_up x) (sort_up-foldr xs)

sort_up-perm : {xs ys : List ℕ} → Perm xs ys → sort_up xs ≡ sort_up ys
sort_up-perm {xs} {ys} p =
    sort_up-foldr xs ∙ Perm.foldr-eq (hlevel) insert_up insert_up_comm p [] ∙ sym (sort_up-foldr ys)

-- The alert depends on the ratios of the history, and not on the order in which they come.
pub evaluate_alert-perm :
    (ratio processes_total : ℕ) (history history' : List ℕ) (cfg : AlertConfig)
    → Perm history history'
    → evaluate_alert ratio processes_total history cfg
      ≡ evaluate_alert ratio processes_total history' cfg
unfolding evaluate_alert median
evaluate_alert-perm ratio processes_total history history' cfg p = rw (sort_up-perm p)

-- A ratio is at most one.
pub cache_hit_ratio-le : (r : Row) (q : ℕ) → cache_hit_ratio r ≡ some q → q ≤ unit_ratio
unfolding cache_hit_ratio
cache_hit_ratio-le r q h = ground (
  arith,
  div-le_of_le-mul (r.disk_cache_hits + r.executed_runners) {m = r.disk_cache_hits * unit_ratio}
      {n = unit_ratio},
)

-- Extracting the metrics of a message a second time changes nothing.
pub extract_metrics-extract_metrics :
    (r : Row) (m : Option BuildMetrics)
    → extract_metrics (extract_metrics r m) m ≡ extract_metrics r m
unfolding extract_metrics extract_summary extract_timing
extract_metrics-extract_metrics r none = refl
extract_metrics-extract_metrics r (some m) = ground arith

-- The sum of the counts under a name.
unfoldable pub sum_of : GoString → List RunnerCount → ℕ
sum_of name [] = 0
sum_of name (rc ∷ rest) = (if str_eq rc.name name then rc.count else 0) + sum_of name rest

apart : (n a b : GoString) → str_eq a b ≡ false → str_eq n a ≡ true → str_eq n b ≡ false
apart n a b h e = ground (arith, str_eq_iff n a, str_eq_iff n b, str_eq_iff a b)

-- A runner has one name.
abbrev OneName : Type 0
OneName =
    (n : GoString)
    → (str_eq n (lit "total") ≡ true
        → (str_eq n (lit "internal") ≡ false)
          × (str_eq n (lit "disk cache hit") ≡ false)
          × (str_eq n (lit "remote cache hit") ≡ false))
      × (str_eq n (lit "internal") ≡ true
          → (str_eq n (lit "disk cache hit") ≡ false) × (str_eq n (lit "remote cache hit") ≡ false))
      × (str_eq n (lit "disk cache hit") ≡ true → str_eq n (lit "remote cache hit") ≡ false)

one_name : OneName
unfolding str_eq
one_name n = (
  λ h. (apart n _ _ refl h, apart n _ _ refl h, apart n _ _ refl h),
  λ h. (apart n _ _ refl h, apart n _ _ refl h),
  λ h. apart n _ _ refl h,
)

add_runners_split :
    (s : Sums) (l : List RunnerCount)
    → ((add_runners s l).sum_all + s.disk_hits + s.executed
        ≡ s.sum_all
          + (add_runners s l).disk_hits
          + (add_runners s l).executed
          + sum_of (lit "internal") l)
      × ((add_runners s l).disk_hits ≡ s.disk_hits + sum_of (lit "disk cache hit") l)
      × ((add_runners s l).remote_hits ≡ s.remote_hits + sum_of (lit "remote cache hit") l)
unfolding add_runners add_runner sum_of
add_runners_split s [] = ground arith
add_runners_split s (rc ∷ rest) =
    let (not_total, not_internal, not_disk) = one_name rc.name in
    ground (arith, add_runners_split (add_runner s rc) rest, not_total, not_internal, not_disk)

no_total :
    (s : Sums) (l : List RunnerCount)
    → sum_of (lit "total") l ≡ 0
    → s.total ≡ 0
    → (add_runners s l).total ≡ 0
unfolding add_runners add_runner sum_of
no_total s [] h k = k
no_total s (rc ∷ rest) h k = no_total (add_runner s rc) rest (ground arith) (ground arith)

-- What a message with an action summary and without a positive total says of the processes: the hits are
-- the sums under their names, and the processes are the disk hits, the executed runners and the internal ones.
extract_metrics_lem :
    (r : Row) (m : BuildMetrics) (a : ActionSummary)
    → m.action_summary ≡ some a
    → sum_of (lit "total") a.runner_count ≡ 0
    → let r' = extract_metrics r (some m) in
      (r'.disk_cache_hits ≡ sum_of (lit "disk cache hit") a.runner_count)
      × (r'.remote_cache_hits ≡ sum_of (lit "remote cache hit") a.runner_count)
      × (r'.processes_total
          ≡ r'.disk_cache_hits + r'.executed_runners + sum_of (lit "internal") a.runner_count)
unfolding extract_metrics extract_summary extract_timing
extract_metrics_lem r m a h none_total = elim (Option-cases m.timing_metrics) [
  | inl e ↦
      rw (h, e)
        (ground (
          arith,
          add_runners_split no_sums a.runner_count,
          no_total no_sums a.runner_count none_total refl,
        ))
  | inr (t, e) ↦
      rw (h, e)
        (ground (
          arith,
          add_runners_split no_sums a.runner_count,
          no_total no_sums a.runner_count none_total refl,
        ))
]
