-- ===== src/Bep/DiskCache/Laws.antt =====
-- Which files a pruning removes, when it stops, and the sum of what is left and what is freed.
use bazel_broker.Common.{
  ℕ, ◌+◌, ◌*◌, ◌/◌, ◌≤◌, ◌≡◌, refl, ap, subst, sym, ◌<◌, tally, All, All-map, All-keep, neg_part,
  ltb, ◌∙◌, ◌⊎◌, inl, inr, Bool, true, false, ◌&&◌, not, Option, none, some, List, [], ◌∷◌, ◌++◌,
  keep, GoString, pos, pos_part, ltb_ℤ, leb, if◌then◌else◌, Bool-cases, arith,
}
use bazel_broker.Admission.Types.{Time, Duration}
use bazel_broker.Bep.DiskCache.{
  DiskCacheConfig, WalkEntry, CacheEntry, Scan, no_scan, count_file, scan_entry, scan_entries,
  scan_disk_cache, insert_oldest, sort_oldest, is_fresh, DiskReportView, scan_view, wants_prune,
  prune_loop, prune, finish_report, run_report,
}

abbrev pub sizes : List CacheEntry → ℕ
sizes [] = 0
sizes (e ∷ es) = e.size + sizes es

-- Whether the entry is at least as old as the minimum age.
abbrev pub is_old : (now : Time) → (min_age : Duration) → CacheEntry → Bool
is_old now min_age e = leb (e.mtime + pos_part min_age) (now + neg_part min_age)

abbrev pub old_entries : (now : Time) → (min_age : Duration) → List CacheEntry → List CacheEntry
old_entries now min_age es = keep (is_old now min_age) es

old-fresh :
    (now : Time) (min_age : Duration) (e : CacheEntry)
    → is_old now min_age e ≡ not (is_fresh now min_age e)
unfolding is_fresh
old-fresh now min_age e = ground arith

-- No entry stands before an older one.
abbrev pub Ascending : List CacheEntry → Type 0
Ascending [] = Unit
Ascending (e ∷ es) = All (λ f. e.mtime ≤ f.mtime) es × Ascending es

insert_oldest-All :
    (n : Time) (e : CacheEntry) (es : List CacheEntry)
    → n ≤ e.mtime
    → All (λ f. n ≤ f.mtime) es
    → All (λ f. n ≤ f.mtime) (insert_oldest e es)
unfolding insert_oldest
insert_oldest-All n e [] h k = (h, tt)
insert_oldest-All n e (f ∷ es) h k = ground (arith, insert_oldest-All n e es h k.1)

weaker :
    (m n : Time) (es : List CacheEntry)
    → m ≤ n
    → All (λ f. n ≤ f.mtime) es
    → All (λ f. m ≤ f.mtime) es
weaker m n es h k = All-map _ _ (λ f l. omega (arith, h, l)) es k

insert_oldest-Ascending :
    (e : CacheEntry) (es : List CacheEntry) → Ascending es → Ascending (insert_oldest e es)
unfolding insert_oldest
insert_oldest-Ascending e [] h = (tt, tt)
insert_oldest-Ascending e (f ∷ es) h = elim (Bool-cases (ltb f.mtime e.mtime)) [
  | inl later ↦
      rw (later, insert_oldest)
        (insert_oldest-All f.mtime e es (ground arith) h.0, insert_oldest-Ascending e es h.1)
  | inr first ↦
      rw (first, insert_oldest) ((ground arith, weaker e.mtime f.mtime es (ground arith) h.0), h)
]

sort_oldest-Ascending : (es : List CacheEntry) → Ascending (sort_oldest es)
unfolding sort_oldest
sort_oldest-Ascending [] = tt
sort_oldest-Ascending (e ∷ es) =
    insert_oldest-Ascending e (sort_oldest es) (sort_oldest-Ascending es)

keep-Ascending :
    (p : CacheEntry → Bool) (es : List CacheEntry) → Ascending es → Ascending (keep p es)
keep-Ascending p [] h = tt
keep-Ascending p (e ∷ es) h = elim (Bool-cases (p e)) [
  | inl y ↦ rw y (All-keep (λ f. e.mtime ≤ f.mtime) p es h.0, keep-Ascending p es h.1)
  | inr n ↦ rw n (keep-Ascending p es h.1)
]

-- Sorting keeps how many entries of a kind pass a test.
tally-insert_oldest :
    (q p : CacheEntry → Bool) (e : CacheEntry) (es : List CacheEntry)
    → tally q (keep p (insert_oldest e es)) ≡ tally q (keep p (e ∷ es))
unfolding insert_oldest
tally-insert_oldest q p e [] = refl
tally-insert_oldest q p e (f ∷ es) = ground (arith, tally-insert_oldest q p e es)

tally-sort_oldest :
    (q p : CacheEntry → Bool) (es : List CacheEntry)
    → tally q (keep p (sort_oldest es)) ≡ tally q (keep p es)
unfolding sort_oldest
tally-sort_oldest q p [] = refl
tally-sort_oldest q p (e ∷ es) =
    ground (arith, tally-insert_oldest q p e (sort_oldest es), tally-sort_oldest q p es)

shift :
    (b : Bool) (freed size n : ℕ)
    → (if b then freed + size else freed) + n ≡ freed + ((if b then size else 0) + n)
shift b freed size n = ground arith

sizes-insert_oldest :
    (e : CacheEntry) (es : List CacheEntry) → sizes (insert_oldest e es) ≡ e.size + sizes es
unfolding insert_oldest
sizes-insert_oldest e [] = refl
sizes-insert_oldest e (f ∷ es) = ground (arith, sizes-insert_oldest e es)

sizes-sort_oldest : (es : List CacheEntry) → sizes (sort_oldest es) ≡ sizes es
unfolding sort_oldest
sizes-sort_oldest [] = refl
sizes-sort_oldest (e ∷ es) =
    omega (arith, sizes-insert_oldest e (sort_oldest es), sizes-sort_oldest es)

sizes-snoc : (es : List CacheEntry) (e : CacheEntry) → sizes (es ++ e ∷ []) ≡ sizes es + e.size
sizes-snoc [] e = omega arith
sizes-snoc (f ∷ es) e = omega (arith, sizes-snoc es e)

-- The total of a scan is the sum of the sizes of the files that it collected.
abbrev IsSummed : Scan → Type 0
IsSummed s = s.total ≡ sizes s.entries

count_file-IsSummed :
    (s : Scan) (path : GoString) (size : ℕ) (mtime : Time)
    → IsSummed s
    → IsSummed (count_file true s path size mtime)
unfolding count_file
count_file-IsSummed s path size mtime h =
    omega (arith, h, sizes-snoc s.entries (record { path = path; size = size; mtime = mtime }))

scan_entry-IsSummed : (s : Scan) (e : WalkEntry) → IsSummed s → IsSummed (scan_entry true s e)
unfolding scan_entry
scan_entry-IsSummed s e h = go e.walk_error e.is_regular e.info
  where
    go :
        (failed regular : Bool) (info : Option (ℕ × Time))
        → IsSummed (
            if failed
            then s
            else if regular
            then elim info [ none ↦ s | some (size, mtime) ↦ count_file true s e.path size mtime ]
            else s)
    go true regular info = h
    go false false info = h
    go false true none = h
    go false true (some (size, mtime)) = count_file-IsSummed s e.path size mtime h

scan_entries-IsSummed :
    (s : Scan) (es : List WalkEntry) → IsSummed s → IsSummed (scan_entries true s es)
unfolding scan_entries
scan_entries-IsSummed s [] h = h
scan_entries-IsSummed s (e ∷ es) h =
    scan_entries-IsSummed (scan_entry true s e) es (scan_entry-IsSummed s e h)

scan_disk_cache-IsSummed :
    (dir : GoString) (walked : List WalkEntry) → IsSummed (scan_disk_cache dir true walked)
unfolding scan_disk_cache
scan_disk_cache-IsSummed [] walked = refl
scan_disk_cache-IsSummed (c ∷ dir) walked = scan_entries-IsSummed no_scan walked refl

module _ {World : Type 0} (remove : World → GoString → Bool × World) where
  -- The removal of each entry, and the bytes of those that could be removed.
  abbrev pub remove_each : World → List CacheEntry → ℕ × World
  remove_each w [] = (0, w)
  remove_each w (e ∷ es) = (
    (if (remove w e.path).0 then e.size else 0) + (remove_each (remove w e.path).1 es).0,
    (remove_each (remove w e.path).1 es).1,
  )

  -- Each removal is tried while what is left is above the target.
  abbrev pub Needed : World → (total target freed : ℕ) → List CacheEntry → Type 0
  Needed w total target freed [] = Unit
  Needed w total target freed (e ∷ es) =
      (target + freed < total)
      × Needed (remove w e.path).1 total target
          (if (remove w e.path).0 then freed + e.size else freed) es

  prune_loop_lem :
      (w : World) (es : List CacheEntry) (now : Time) (min_age : Duration) (total target freed : ℕ)
      → (gone kept : List CacheEntry) × (old_entries now min_age es ≡ gone ++ kept)
        × (prune_loop remove w es now min_age total target freed
            ≡ (freed + (remove_each w gone).0, (remove_each w gone).1))
        × ((kept ≡ []) ⊎ (total ≤ target + (freed + (remove_each w gone).0)))
        × Needed w total target freed gone
  unfolding prune_loop
  prune_loop_lem w [] now min_age total target freed =
      ([], [], refl, ap (λ n. (n, w)) (omega arith), inl refl, tt)
  prune_loop_lem w (e ∷ es) now min_age total target freed =
      elim (Bool-cases (leb total (target + freed))) [
        | inl stop ↦ (
          [],
          old_entries now min_age (e ∷ es),
          refl,
          rw (stop, prune_loop) (ap (λ n. (n, w)) (omega arith)),
          inr (ground arith),
          tt,
        )
        | inr on ↦ elim (Bool-cases (is_fresh now min_age e)) [
          | inl fresh ↦
              let (gone, kept, split, same, end, need) =
                prune_loop_lem w es now min_age total target freed in
              (
                gone,
                kept,
                rw (old-fresh now min_age e) (rw fresh split),
                rw (on, fresh, prune_loop) same,
                end,
                need,
              )
          | inr old ↦
              let freed' = if (remove w e.path).0 then freed + e.size else freed in
              let (gone, kept, split, same, end, need) =
                prune_loop_lem (remove w e.path).1 es now min_age total target freed' in
              (
                e ∷ gone,
                kept,
                rw (old-fresh now min_age e) (rw old (ap (λ l. e ∷ l) split)),
                rw (on, old, prune_loop)
                    (same
                      ∙ ap (λ n. (n, (remove_each (remove w e.path).1 gone).1))
                          (shift (remove w e.path).0 freed e.size
                            (remove_each (remove w e.path).1 gone).0)),
                subst (λ n. (kept ≡ []) ⊎ (total ≤ target + n))
                    (shift (remove w e.path).0 freed e.size
                      (remove_each (remove w e.path).1 gone).0)
                    end,
                (ground arith, need),
              )
        ]
      ]

  prune_loop-le :
      (w : World) (es : List CacheEntry) (now : Time) (min_age : Duration) (total target freed : ℕ)
      → (prune_loop remove w es now min_age total target freed).0 ≤ freed + sizes es
  unfolding prune_loop
  prune_loop-le w [] now min_age total target freed = omega arith
  prune_loop-le w (e ∷ es) now min_age total target freed = ground (
    arith,
    prune_loop-le w es now min_age total target freed,
    prune_loop-le (remove w e.path).1 es now min_age total target
        (if (remove w e.path).0 then freed + e.size else freed),
  )

  -- What a pruning tries to remove is a first part `gone` of the entries that are at least as old as the
  -- minimum age, from the oldest to the youngest: with the rest `kept` it has the same entries as they.
  -- It reports the bytes of the removals that succeeded and touches nothing else. It removes only while what
  -- is left is above the target, and stops only when it is not, or when no old entry is left.
  pub prune_lem :
      (w : World) (cfg : DiskCacheConfig) (now : Time) (entries : List CacheEntry) (total : ℕ)
      → let target = pos_part cfg.max_bytes * cfg.hysteresis / 1000000 in
        (gone kept : List CacheEntry) × ((q : CacheEntry → Bool)
          → tally q (gone ++ kept) ≡ tally q (old_entries now cfg.min_age entries))
        × Ascending (gone ++ kept)
        × (prune remove w cfg now entries total ≡ remove_each w gone)
        × Needed w total target 0 gone
        × ((kept ≡ []) ⊎ (total ≤ target + (remove_each w gone).0))
  unfolding prune
  prune_lem w cfg now entries total =
      let target = pos_part cfg.max_bytes * cfg.hysteresis / 1000000 in
      let old = is_old now cfg.min_age in
      let (gone, kept, split, same, end, need) =
        prune_loop_lem w (sort_oldest entries) now cfg.min_age total target 0 in
      let zero_first : 0 + (remove_each w gone).0 ≡ (remove_each w gone).0 = omega arith in
      (
        gone,
        kept,
        λ q. ap (tally q) (sym split) ∙ tally-sort_oldest q old entries,
        subst Ascending split
            (keep-Ascending old (sort_oldest entries) (sort_oldest-Ascending entries)),
        same ∙ ap (λ n. (n, (remove_each w gone).1)) zero_first,
        need,
        subst (λ n. (kept ≡ []) ⊎ (total ≤ target + n)) zero_first end,
      )

  prune-le :
      (w : World) (cfg : DiskCacheConfig) (now : Time) (entries : List CacheEntry) (total : ℕ)
      → (prune remove w cfg now entries total).0 ≤ sizes entries
  unfolding prune
  prune-le w cfg now entries total = omega (
    arith,
    prune_loop-le w (sort_oldest entries) now cfg.min_age total
        (pos_part cfg.max_bytes * cfg.hysteresis / 1000000) 0,
    sizes-sort_oldest entries,
  )

  finish_report-sum :
      (w : World) (view : DiskReportView) (gc : Bool) (pruned : ℕ × World)
      → view.gc_freed ≡ 0
      → (gc ≡ true → pruned.0 ≤ view.total_bytes)
      → (finish_report remove w view gc pruned).0.total_bytes
          + (finish_report remove w view gc pruned).0.gc_freed
        ≡ view.total_bytes
  unfolding finish_report
  finish_report-sum w view false pruned z h = omega (arith, z)
  finish_report-sum w view true (freed, w') z h = omega (arith, h refl)

  finish_report-idle :
      (w : World) (view : DiskReportView) (gc : Bool) (pruned : ℕ × World)
      → gc ≡ false
      → (finish_report remove w view gc pruned).1 ≡ w
  unfolding finish_report
  finish_report-idle w view false pruned e = refl
  finish_report-idle w view true pruned e = absurd (cc)

  pruned-le :
      (w : World) (cfg : DiskCacheConfig) (now : Time) (build_active : Bool)
      (walked : List WalkEntry) (collect : Bool) (total : ℕ)
      → wants_prune cfg ≡ collect
      → (collect && ltb_ℤ cfg.max_bytes (pos total) && not build_active) ≡ true
      → (prune remove w cfg now
          (scan_disk_cache cfg.dir collect walked).entries
          (scan_disk_cache cfg.dir collect walked).total).0
        ≤ (scan_disk_cache cfg.dir collect walked).total
  pruned-le w cfg now build_active walked false total e h = absurd (cc)
  pruned-le w cfg now build_active walked true total e h =
      let scan = scan_disk_cache cfg.dir true walked in
      omega
        (arith, prune-le w cfg now scan.entries scan.total, scan_disk_cache-IsSummed cfg.dir walked)

  -- A report removes nothing while a build is in flight, nor where the direct pruning is off; and in every
  -- report the bytes left and the bytes freed add up to the bytes that the scan counted.
  pub run_report_lem :
      (w : World) (cfg : DiskCacheConfig) (now : Time) (build_active : Bool)
      (walked : List WalkEntry)
      → ((build_active ≡ true) ⊎ (cfg.enable_direct ≡ false)
          → (run_report remove w cfg now build_active walked).1 ≡ w)
        × ((run_report remove w cfg now build_active walked).0.total_bytes
              + (run_report remove w cfg now build_active walked).0.gc_freed
            ≡ (scan_disk_cache cfg.dir (wants_prune cfg) walked).total)
  unfolding run_report scan_view wants_prune
  run_report_lem w cfg now build_active walked =
      let scan = scan_disk_cache cfg.dir (wants_prune cfg) walked in
      let pruned = prune remove w cfg now scan.entries scan.total in
      (
        λ idle.
            finish_report-idle w (scan_view cfg now scan) _ pruned
              (off cfg build_active (ltb_ℤ cfg.max_bytes (pos scan.total)) idle),
        finish_report-sum w (scan_view cfg now scan) _ pruned refl
            (pruned-le w cfg now build_active walked (wants_prune cfg) scan.total refl),
      )
    where
      off :
          (cfg : DiskCacheConfig) (build_active large : Bool)
          → (build_active ≡ true) ⊎ (cfg.enable_direct ≡ false)
          → (wants_prune cfg && large && not build_active) ≡ false
      off cfg build_active large (inl e) = ground arith
      off cfg build_active large (inr e) = ground arith
