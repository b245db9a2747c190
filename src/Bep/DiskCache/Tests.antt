-- ===== src/Bep/DiskCache/Tests.antt =====
-- The theorems on the disk cache at a directory of three files, whose removal is counted.
use bazel_broker.Common.{
  ℕ, suc, tally, ◌+◌, ◌*◌, ◌/◌, ◌≤◌, ◌≡◌, ◌⊎◌, true, false, Bool, some, List, [], ◌∷◌, ◌++◌, lit,
  GoString, pos,
}
use bazel_broker.Bep.DiskCache.{
  DiskCacheConfig, WalkEntry, CacheEntry, wants_prune, scan_disk_cache, prune, run_report,
}
use bazel_broker.Bep.DiskCache.Laws.{
  old_entries, Ascending, Needed, remove_each, prune_lem, run_report_lem,
}

abbrev remove : ℕ → GoString → Bool × ℕ
remove w path = (true, suc w)

abbrev config : DiskCacheConfig
config = record {
  dir = lit "/cache";
  report_every = pos 900;
  max_bytes = pos 100;
  min_age = pos 50;
  hysteresis = 900000;
  enable_direct = true;
}

abbrev file : GoString → ℕ → ℕ → WalkEntry
file path size mtime = record {
  path = path;
  walk_error = false;
  is_regular = true;
  info = some (size, mtime);
}

abbrev walked : List WalkEntry
walked = file (lit "a") 60 30 ∷ file (lit "b") 40 10 ∷ file (lit "c") 50 190 ∷ []

abbrev entries : List CacheEntry
entries =
    record { path = lit "a"; size = 60; mtime = 30 }
    ∷ record { path = lit "b"; size = 40; mtime = 10 }
    ∷ record { path = lit "c"; size = 50; mtime = 190 }
    ∷ []

prune_lem_example :
    (gone kept : List CacheEntry) × ((q : CacheEntry → Bool)
      → tally q (gone ++ kept) ≡ tally q (old_entries 200 (pos 50) entries))
    × Ascending (gone ++ kept)
    × (prune remove 0 config 200 entries 150 ≡ remove_each remove 0 gone)
    × Needed remove 0 150 (100 * 900000 / 1000000) 0 gone
    × ((kept ≡ []) ⊎ (150 ≤ 100 * 900000 / 1000000 + (remove_each remove 0 gone).0))
prune_lem_example = prune_lem remove 0 config 200 entries 150

run_report_lem_example :
    ((true ≡ true) ⊎ (true ≡ false) → (run_report remove 0 config 200 true walked).1 ≡ 0)
    × ((run_report remove 0 config 200 true walked).0.total_bytes
          + (run_report remove 0 config 200 true walked).0.gc_freed
        ≡ (scan_disk_cache (lit "/cache") (wants_prune config) walked).total)
run_report_lem_example = run_report_lem remove 0 config 200 true walked
