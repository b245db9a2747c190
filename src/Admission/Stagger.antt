-- ===== src/Admission/Stagger.antt =====
-- internal/admission/gates.go: the third gate, which holds a build whose targets overlap those of a
-- build that was admitted within the window.
pub mod Laws
pub mod Hold
use bazel_broker.Common.{
  Bool, true, false, ◌||◌, ◌&&◌, not, List, [], ◌∷◌, GoString, str_eq, is_empty, keep, Assoc,
  insert, ℤ, pos, sub_ℕ, ◌-ℤ◌, ltb_ℤ, leb_ℤ, if◌then◌else◌,
}
use bazel_broker.Admission.Types.{Request, Duration, Time, ActiveBuild}
use bazel_broker.Admission.Targets.{to_set, overlaps}

pub record AdmitRecord : Type 0 where
  pub targets : List GoString
  pub admitted_at : Time

pub record Stagger : Type 0 where
  pub window : Duration
  pub recent : Assoc AdmitRecord

-- `NewStagger`; the clock is an argument of the methods.
unfoldable pub new_stagger : Duration → Stagger
new_stagger window = record { window = window; recent = [] }

-- The closure `consider`: the new value of `hold`.
unfoldable pub consider :
    (window : Duration) (now : Time) (want : List GoString) (hold : Duration)
    → List GoString
    → Time
    → Duration
consider window now want hold targets admitted_at =
    let age = sub_ℕ now admitted_at in
    let rem = window -ℤ age in
    if leb_ℤ window age || ltb_ℤ age (pos 0)
    then hold
    else if overlaps want targets && ltb_ℤ hold rem
    then rem
    else hold

-- Whether the loops over `recent` delete the record.
unfoldable pub aged : Duration → Time → AdmitRecord → Bool
aged window now rec = leb_ℤ window (sub_ℕ now rec.admitted_at)

module _ (window : Duration) (now : Time) (id : GoString) (want : List GoString) where
  -- The body of the loop over `recent`.
  unfoldable pub step_record : Duration → GoString × AdmitRecord → Duration
  step_record hold (k, rec) =
      if aged window now rec
      then hold
      else if str_eq k id
      then hold
      else consider window now want hold rec.targets rec.admitted_at

  -- The body of the loop over the builds of the snapshot.
  unfoldable pub step_build : Duration → ActiveBuild → Duration
  step_build hold b =
      if str_eq b.invocation_id id
      then hold
      else consider window now want hold (to_set b.targets) b.started_at

  unfoldable pub hold_recent : Duration → Assoc AdmitRecord → Duration
  hold_recent hold [] = hold
  hold_recent hold (entry ∷ recent) = hold_recent (step_record hold entry) recent

  unfoldable pub hold_builds : Duration → List ActiveBuild → Duration
  hold_builds hold [] = hold
  hold_builds hold (b ∷ builds) = hold_builds (step_build hold b) builds

-- What the loops delete from `recent`, also the body of `runGC`.
unfoldable pub stagger_gc : Stagger → Time → Stagger
stagger_gc s now = record s {
  recent = keep (λ ((k, rec) : GoString × AdmitRecord). not (aged s.window now rec)) s.recent;
}

-- The result and the hint, and the gate after its garbage collection.
unfoldable pub stagger_try :
    Stagger → Time → Request → List ActiveBuild → (Bool × Duration) × Stagger
stagger_try s now req builds =
    let want = to_set (req.targets ∷ []) in
    let hold =
      hold_builds s.window now req.invocation_id want
        (hold_recent s.window now req.invocation_id want (pos 0) s.recent) builds in
    if leb_ℤ s.window (pos 0)
    then ((true, pos 0), s)
    else if is_empty want
    then ((true, pos 0), s)
    else if ltb_ℤ (pos 0) hold
    then ((false, hold), stagger_gc s now)
    else ((true, pos 0), stagger_gc s now)

unfoldable pub stagger_acquire : Stagger → Time → Request → Stagger
stagger_acquire s now req = record s {
  recent =
      insert req.invocation_id (record { targets = to_set (req.targets ∷ []); admitted_at = now })
        s.recent;
}
