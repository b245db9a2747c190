-- ===== src/Admission/Stagger/Laws.antt =====
-- When the stagger gate holds a request, and for how long.
use bazel_broker.Common.{
  ◌≡◌, refl, ◌∙◌, Bool, true, false, ◌&&◌, not, List, [], ◌∷◌, GoString, str_eq, Assoc, All, sub_ℕ,
  ◌-ℤ◌, ◌≤ℤ◌, ltb_ℤ, leb, arith,
}
use bazel_broker.Admission.Types.{Request, Duration, Time, ActiveBuild}
use bazel_broker.Admission.Targets.{to_set, overlaps}
use bazel_broker.Admission.Stagger.{
  AdmitRecord, Stagger, consider, aged, step_record, step_build, hold_recent, hold_builds,
}

-- What is left of the window that opened at `at`.
abbrev pub remaining : Duration → Time → Time → Duration
remaining window now at = window -ℤ sub_ℕ now at

-- An admission of another build, within the window and not in the future, with shared targets.
abbrev pub blocks :
    (window : Duration) (now : Time) (id : GoString) (want : List GoString)
    → GoString
    → List GoString
    → Time
    → Bool
blocks window now id want k targets at =
    not (str_eq k id) && leb at now && ltb_ℤ (sub_ℕ now at) window && overlaps want targets

module _ (window : Duration) (now : Time) (id : GoString) (want : List GoString) where
  abbrev pub blocks_build : ActiveBuild → Bool
  blocks_build b = blocks window now id want b.invocation_id (to_set b.targets) b.started_at

  abbrev pub blocks_record : GoString × AdmitRecord → Bool
  blocks_record (k, rec) = blocks window now id want k rec.targets rec.admitted_at

  consider-ge :
      (hold : Duration) (ts : List GoString) (at : Time)
      → hold ≤ℤ consider window now want hold ts at
  unfolding consider
  consider-ge hold ts at = ground arith

  consider-le :
      (hold : Duration) (ts : List GoString) (at : Time)
      → hold ≤ℤ window
      → consider window now want hold ts at ≤ℤ window
  unfolding consider ◌-ℤ◌
  consider-le hold ts at h = ground arith

  consider-covers :
      (hold : Duration) (k : GoString) (ts : List GoString) (at : Time)
      → blocks window now id want k ts at ≡ true
      → remaining window now at ≤ℤ consider window now want hold ts at
  unfolding consider
  consider-covers hold k ts at h = ground arith

  consider_idle :
      (hold : Duration) (k : GoString) (ts : List GoString) (at : Time)
      → str_eq k id ≡ false
      → blocks window now id want k ts at ≡ false
      → consider window now want hold ts at ≡ hold
  unfolding consider
  consider_idle hold k ts at e h = ground arith

  abbrev build_hold : Duration → ActiveBuild → Duration
  build_hold = step_build window now id want

  abbrev record_hold : Duration → GoString × AdmitRecord → Duration
  record_hold = step_record window now id want

  abbrev pub builds_hold : Duration → List ActiveBuild → Duration
  builds_hold = hold_builds window now id want

  abbrev pub recent_hold : Duration → Assoc AdmitRecord → Duration
  recent_hold = hold_recent window now id want

  step_build_bounds :
      (hold : Duration) (b : ActiveBuild)
      → (hold ≤ℤ build_hold hold b)
        × (hold ≤ℤ window → build_hold hold b ≤ℤ window)
        × (blocks_build b ≡ true → remaining window now b.started_at ≤ℤ build_hold hold b)
        × (blocks_build b ≡ false → build_hold hold b ≡ hold)
  unfolding step_build
  step_build_bounds hold b =
      let ts = to_set b.targets in
      ground (
        arith,
        consider-ge hold ts b.started_at,
        consider-le hold ts b.started_at,
        consider-covers hold b.invocation_id ts b.started_at,
        consider_idle hold b.invocation_id ts b.started_at,
      )

  step_record_bounds :
      (hold : Duration) (k : GoString) (rec : AdmitRecord)
      → (hold ≤ℤ record_hold hold (k, rec))
        × (hold ≤ℤ window → record_hold hold (k, rec) ≤ℤ window)
        × (blocks_record (k, rec) ≡ true
            → remaining window now rec.admitted_at ≤ℤ record_hold hold (k, rec))
        × (blocks_record (k, rec) ≡ false → record_hold hold (k, rec) ≡ hold)
  unfolding step_record aged
  step_record_bounds hold k rec = ground (
    arith,
    consider-ge hold rec.targets rec.admitted_at,
    consider-le hold rec.targets rec.admitted_at,
    consider-covers hold k rec.targets rec.admitted_at,
    consider_idle hold k rec.targets rec.admitted_at,
  )

  pub hold_builds-ge : (hold : Duration) (bs : List ActiveBuild) → hold ≤ℤ builds_hold hold bs
  unfolding hold_builds
  hold_builds-ge hold [] = omega arith
  hold_builds-ge hold (b ∷ bs) =
      omega (arith, hold_builds-ge (build_hold hold b) bs, (step_build_bounds hold b).0)

  pub hold_builds-le :
      (hold : Duration) (bs : List ActiveBuild) → hold ≤ℤ window → builds_hold hold bs ≤ℤ window
  unfolding hold_builds
  hold_builds-le hold [] h = h
  hold_builds-le hold (b ∷ bs) h =
      hold_builds-le (build_hold hold b) bs ((step_build_bounds hold b).1 h)

  pub hold_builds-covers :
      (hold : Duration) (bs : List ActiveBuild)
      → All
          (λ b. blocks_build b ≡ true → remaining window now b.started_at ≤ℤ builds_hold hold bs)
          bs
  unfolding hold_builds
  hold_builds-covers hold [] = tt
  hold_builds-covers hold (b ∷ bs) = (
    λ e. omega (arith, hold_builds-ge (build_hold hold b) bs, (step_build_bounds hold b).2 e),
    hold_builds-covers (build_hold hold b) bs,
  )

  pub hold_builds_idle :
      (hold : Duration) (bs : List ActiveBuild)
      → All (λ b. blocks_build b ≡ false) bs
      → builds_hold hold bs ≡ hold
  unfolding hold_builds
  hold_builds_idle hold [] h = refl
  hold_builds_idle hold (b ∷ bs) h =
      hold_builds_idle (build_hold hold b) bs h.1 ∙ (step_build_bounds hold b).3 h.0

  pub hold_recent-ge : (hold : Duration) (rs : Assoc AdmitRecord) → hold ≤ℤ recent_hold hold rs
  unfolding hold_recent
  hold_recent-ge hold [] = omega arith
  hold_recent-ge hold ((k, rec) ∷ rs) =
      omega
        (arith, hold_recent-ge (record_hold hold (k, rec)) rs, (step_record_bounds hold k rec).0)

  pub hold_recent-le :
      (hold : Duration) (rs : Assoc AdmitRecord) → hold ≤ℤ window → recent_hold hold rs ≤ℤ window
  unfolding hold_recent
  hold_recent-le hold [] h = h
  hold_recent-le hold ((k, rec) ∷ rs) h =
      hold_recent-le (record_hold hold (k, rec)) rs ((step_record_bounds hold k rec).1 h)

  pub hold_recent-covers :
      (hold : Duration) (rs : Assoc AdmitRecord)
      → All
          (λ r.
            blocks_record r ≡ true → remaining window now r.1.admitted_at ≤ℤ recent_hold hold rs)
          rs
  unfolding hold_recent
  hold_recent-covers hold [] = tt
  hold_recent-covers hold ((k, rec) ∷ rs) = (
    λ e.
        omega (
          arith,
          hold_recent-ge (record_hold hold (k, rec)) rs,
          (step_record_bounds hold k rec).2 e,
        ),
    hold_recent-covers (record_hold hold (k, rec)) rs,
  )

  pub hold_recent_idle :
      (hold : Duration) (rs : Assoc AdmitRecord)
      → All (λ r. blocks_record r ≡ false) rs
      → recent_hold hold rs ≡ hold
  unfolding hold_recent
  hold_recent_idle hold [] h = refl
  hold_recent_idle hold ((k, rec) ∷ rs) h =
      hold_recent_idle (record_hold hold (k, rec)) rs h.1 ∙ (step_record_bounds hold k rec).3 h.0

module _ (s : Stagger) (now : Time) (req : Request) (builds : List ActiveBuild) where
  abbrev pub want_of : List GoString
  want_of = to_set (req.targets ∷ [])

  abbrev pub overlapping : ActiveBuild → Bool
  overlapping = blocks_build s.window now req.invocation_id want_of

  abbrev pub overlapping_record : GoString × AdmitRecord → Bool
  overlapping_record = blocks_record s.window now req.invocation_id want_of
