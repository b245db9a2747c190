-- ===== src/Admission/Stagger/Hold.antt =====
-- The decision of the stagger gate: whom it refuses, and the hint that it gives.
use bazel_broker.Common.{
  ◌≡◌, refl, true, false, List, [], ◌∷◌, GoString, is_empty, All, All-map, pos, ◌-ℤ◌, ◌≤ℤ◌, ltb_ℤ,
  leb_ℤ, arith,
}
use bazel_broker.Admission.Types.{Request, Duration, Time, ActiveBuild}
use bazel_broker.Admission.Targets.{member, to_set, overlaps}
use bazel_broker.Admission.Targets.Laws.{overlaps_iff}
use bazel_broker.Admission.Stagger.{Stagger, hold_recent, hold_builds, stagger_try}
use bazel_broker.Admission.Stagger.Laws.{
  remaining, blocks, overlapping, overlapping_record, hold_builds-ge, hold_builds-le,
  hold_builds-covers, hold_builds_idle, hold_recent-le, hold_recent-covers, hold_recent_idle,
}

nonempty-overlaps : (a b : List GoString) → overlaps a b ≡ true → is_empty a ≡ false
unfolding member
nonempty-overlaps [] b e = let (k, in_a, in_b) = (overlaps_iff [] b).0 e in cc
nonempty-overlaps (x ∷ a) b e = refl

-- What a blocking admission says of the window.
blocks_open :
    (window : Duration) (now : Time) (id : GoString) (want : List GoString) (k : GoString)
    (ts : List GoString) (at : Time)
    → blocks window now id want k ts at ≡ true
    → (leb_ℤ window (pos 0) ≡ false)
      × (leb_ℤ (remaining window now at) (pos 0) ≡ false)
      × (is_empty want ≡ false)
unfolding ◌-ℤ◌
blocks_open window now id want k ts at h = ground (arith, nonempty-overlaps want ts)

module _ (s : Stagger) (now : Time) (req : Request) (builds : List ActiveBuild) where
  abbrev want : List GoString
  want = to_set (req.targets ∷ [])

  abbrev from_recent : Duration
  from_recent = hold_recent s.window now req.invocation_id want (pos 0) s.recent

  abbrev total : Duration
  total = hold_builds s.window now req.invocation_id want from_recent builds

  abbrev pub RefusedFor : Time → Type 0
  RefusedFor at =
      ((stagger_try s now req builds).0.0 ≡ false)
      × (remaining s.window now at ≤ℤ (stagger_try s now req builds).0.1)

  -- A positive hold under an open window and visible targets is a refusal with that hold.
  refuses :
      (k : GoString) (ts : List GoString) (at : Time)
      → remaining s.window now at ≤ℤ total
      → blocks s.window now req.invocation_id want k ts at ≡ true
      → RefusedFor at
  unfolding stagger_try
  refuses k ts at h e =
      let open_window = blocks_open s.window now req.invocation_id want k ts at e in ground arith

  -- Every overlapping admission within the window, recorded by the gate or in the registry, makes the
  -- gate refuse, with a hint no shorter than what is left of that admission's window.
  pub stagger_try-covers :
      All (λ b. overlapping s now req builds b ≡ true → RefusedFor b.started_at) builds
      × All
          (λ r. overlapping_record s now req builds r ≡ true → RefusedFor r.1.admitted_at)
          s.recent
  stagger_try-covers = (
    All-map _ _ (λ b h e. refuses b.invocation_id (to_set b.targets) b.started_at (h e) e) builds
        (hold_builds-covers s.window now req.invocation_id want from_recent builds),
    All-map _ _ (λ r h e. refuses r.0 r.1.targets r.1.admitted_at (up r.1.admitted_at (h e)) e)
        s.recent (hold_recent-covers s.window now req.invocation_id want (pos 0) s.recent),
  )
    where
      up :
          (at : Time)
          → remaining s.window now at ≤ℤ from_recent
          → remaining s.window now at ≤ℤ total
      up at h = omega (arith, hold_builds-ge s.window now req.invocation_id want from_recent builds)

  -- Where nothing overlaps, the gate admits.
  stagger_try_idle :
      All (λ b. overlapping s now req builds b ≡ false) builds
      → All (λ r. overlapping_record s now req builds r ≡ false) s.recent
      → (stagger_try s now req builds).0 ≡ (true, pos 0)
  unfolding stagger_try
  stagger_try_idle h k = ground (
    arith,
    hold_builds_idle s.window now req.invocation_id want from_recent builds h,
    hold_recent_idle s.window now req.invocation_id want (pos 0) s.recent k,
  )

  -- A refusal has a positive hint, which is at most the window.
  pub stagger_try_hint :
      (stagger_try s now req builds).0.0 ≡ false
      → (ltb_ℤ (pos 0) (stagger_try s now req builds).0.1 ≡ true)
        × ((stagger_try s now req builds).0.1 ≤ℤ s.window)
  unfolding stagger_try
  stagger_try_hint h = ground (
    arith,
    hold_builds-le s.window now req.invocation_id want from_recent builds,
    hold_recent-le s.window now req.invocation_id want (pos 0) s.recent,
  )
