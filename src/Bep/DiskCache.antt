-- ===== src/Bep/DiskCache.antt =====
-- internal/bep/diskcache.go: the report on the shared disk cache and the pruning of its oldest files. What
-- `filepath.WalkDir` visits is a list, and the removal of a file a parameter over a state of its own. A
-- fraction is a number of millionths, and its product is rounded down.
pub mod Laws
mod Tests
use bazel_broker.Common.{
  ℕ, suc, ◌+◌, ◌*◌, ◌-◌, ◌/◌, Bool, true, false, ◌&&◌, not, Option, none, some, List, [], ◌∷◌, ◌++◌,
  GoString, is_empty, ℤ, pos, negsuc, pos_part, neg_part, is_zero, ltb_ℤ, ltb, leb, ◌==◌,
  if◌then◌else◌,
}
use bazel_broker.Admission.Types.{Time, Duration}
use bazel_broker.Store.{millis_of}

pub record DiskCacheConfig : Type 0 where
  pub dir : GoString
  pub report_every : Duration
  pub max_bytes : ℤ
  pub min_age : Duration
  pub hysteresis : ℕ
  pub enable_direct : Bool

abbrev pub or_duration : Duration → Duration → Duration
or_duration given default = if is_zero given then default else given

-- `withDefaults`.
unfoldable pub with_cache_defaults : DiskCacheConfig → DiskCacheConfig
with_cache_defaults c = record c {
  report_every = or_duration c.report_every (pos 900000000000);
  min_age = or_duration c.min_age (pos 86400000000000);
  hysteresis = if c.hysteresis == 0 then 900000 else c.hysteresis;
}

-- What the walk gives for one path: an error, or its kind and, where it can be read, its size and time.
pub record WalkEntry : Type 0 where
  pub path : GoString
  pub walk_error : Bool
  pub is_regular : Bool
  pub info : Option (ℕ × Time)

pub record CacheEntry : Type 0 where
  pub path : GoString
  pub size : ℕ
  pub mtime : Time

pub record Scan : Type 0 where
  pub total : ℕ
  pub count : ℕ
  pub oldest : Time
  pub entries : List CacheEntry

abbrev pub no_scan : Scan
no_scan = record { total = 0; count = 0; oldest = 0; entries = [] }

unfoldable pub count_file : (collect : Bool) → Scan → GoString → (size : ℕ) → Time → Scan
count_file collect s path size mtime = record {
  total = s.total + size;
  count = suc s.count;
  oldest = if s.oldest == 0 then mtime else if ltb mtime s.oldest then mtime else s.oldest;
  entries =
      if collect
      then s.entries ++ record { path = path; size = size; mtime = mtime } ∷ []
      else s.entries;
}

-- The function that walks.
unfoldable pub scan_entry : (collect : Bool) → Scan → WalkEntry → Scan
scan_entry collect s e =
    if e.walk_error
    then s
    else if e.is_regular
    then elim e.info [ none ↦ s | some (size, mtime) ↦ count_file collect s e.path size mtime ]
    else s

unfoldable pub scan_entries : (collect : Bool) → Scan → List WalkEntry → Scan
scan_entries collect s [] = s
scan_entries collect s (e ∷ es) = scan_entries collect (scan_entry collect s e) es

-- `scanDiskCache`, whose walk never fails, since the function that walks returns no error.
unfoldable pub scan_disk_cache : GoString → (collect : Bool) → List WalkEntry → Scan
scan_disk_cache dir collect walked =
    if is_empty dir then no_scan else scan_entries collect no_scan walked

-- `sort.Slice` by the time, oldest first.
unfoldable pub insert_oldest : CacheEntry → List CacheEntry → List CacheEntry
insert_oldest e [] = e ∷ []
insert_oldest e (f ∷ es) = if ltb f.mtime e.mtime then f ∷ insert_oldest e es else e ∷ f ∷ es

unfoldable pub sort_oldest : List CacheEntry → List CacheEntry
sort_oldest [] = []
sort_oldest (e ∷ es) = insert_oldest e (sort_oldest es)

-- Whether the entry is after the cutoff, which is so long before now.
unfoldable pub is_fresh : (now : Time) → (min_age : Duration) → CacheEntry → Bool
is_fresh now min_age e = ltb (now + neg_part min_age) (e.mtime + pos_part min_age)

-- `DiskReportView`.
pub record DiskReportView : Type 0 where
  pub taken_at : ℤ
  pub cache_dir : GoString
  pub total_bytes : ℕ
  pub file_count : ℕ
  pub oldest_mtime : ℤ
  pub gc_freed : ℕ

unfoldable pub scan_view : DiskCacheConfig → (now : Time) → Scan → DiskReportView
scan_view cfg now scan = record {
  taken_at = millis_of now;
  cache_dir = cfg.dir;
  total_bytes = scan.total;
  file_count = scan.count;
  oldest_mtime = if scan.oldest == 0 then pos 0 else millis_of scan.oldest;
  gc_freed = 0;
}

-- Whether the direct pruning is on, so that the scan collects the files.
unfoldable pub wants_prune : DiskCacheConfig → Bool
wants_prune cfg = cfg.enable_direct && ltb_ℤ (pos 0) cfg.max_bytes

module _ {World : Type 0} (remove : World → GoString → Bool × World) where
  -- The loop of `prune`: the bytes freed, given those freed so far. `remove` tells whether it succeeded.
  unfoldable pub prune_loop :
      World
      → List CacheEntry
      → (now : Time) → (min_age : Duration) → (total target freed : ℕ) → ℕ × World
  prune_loop w [] now min_age total target freed = (freed, w)
  prune_loop w (e ∷ es) now min_age total target freed =
      let (removed, w') = remove w e.path in
      let skipped = prune_loop w es now min_age total target freed in
      let tried =
        prune_loop w' es now min_age total target (if removed then freed + e.size else freed) in
      if leb total (target + freed)
      then (freed, w)
      else if is_fresh now min_age e
      then skipped
      else tried

  -- `prune`.
  unfoldable pub prune :
      World → DiskCacheConfig → (now : Time) → List CacheEntry → (total : ℕ) → ℕ × World
  prune w cfg now entries total =
      prune_loop w (sort_oldest entries) now cfg.min_age total
        (pos_part cfg.max_bytes * cfg.hysteresis / 1000000) 0

  -- The end of `run`: the view of the scan, or, after a pruning, with what it freed.
  unfoldable pub finish_report :
      World → DiskReportView → (gc : Bool) → ℕ × World → DiskReportView × World
  finish_report w view false pruned = (view, w)
  finish_report w view true (freed, w') =
      (record view { total_bytes = view.total_bytes - freed; gc_freed = freed }, w')

  -- `run`. `build_active` tells whether a build is in flight.
  unfoldable pub run_report :
      World
      → DiskCacheConfig
      → (now : Time) → (build_active : Bool) → List WalkEntry
      → DiskReportView × World
  run_report w cfg now build_active walked =
      let scan = scan_disk_cache cfg.dir (wants_prune cfg) walked in
      finish_report w (scan_view cfg now scan)
        (wants_prune cfg && ltb_ℤ cfg.max_bytes (pos scan.total) && not build_active)
        (prune w cfg now scan.entries scan.total)
