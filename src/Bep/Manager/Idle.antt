-- ===== src/Bep/Manager/Idle.antt =====
-- When a pass of the supervisor drops a worktree.
use bazel_broker.Common.{
  ◌≡◌, refl, sym, ap, ◌∙◌, ◌⊎◌, inl, inr, Bool, true, false, some, List, [], ◌∷◌, any, map,
  GoString, is_empty, str_eq, str_eq_iff, Assoc, lookup, delete, lookup-insert, lookup-delete, pos,
  ltb_ℤ, leb_ℤ, sub_ℕ, Bool-cases, Option-cases, arith,
}
use bazel_broker.Admission.Types.{Time, Duration}
use bazel_broker.Admission.Targets.{member}
use bazel_broker.Registry.{Registry}
use bazel_broker.Registry.Reports.{snapshot}
use bazel_broker.Bep.Manager.{
  Manager, watch, stop, watching, active_worktrees, watch_all, tear_down, tear_down_all, reconcile,
}
use bazel_broker.Bep.Manager.Watching.{
  is_active_in, member-active_worktrees, watching-watch_all, reconcile-watching,
}

-- The worktree has been idle for the whole grace period.
abbrev pub Expired : GoString → (now : Time) (grace : Duration) → Assoc Time → Type 0
Expired wt now grace idle =
    (t : Time) × (lookup wt idle ≡ some t) × (leb_ℤ grace (sub_ℕ now t) ≡ true)

-- The worktree is still watched, with the idle time that it had or with a fresh one.
abbrev Watched : GoString → (now : Time) → Assoc Time → Manager × Assoc Time → Type 0
Watched wt now idle0 state =
    (watching state.0 wt ≡ true)
    × ((lookup wt state.1 ≡ lookup wt idle0) ⊎ (lookup wt state.1 ≡ some now))

watching-stop :
    (k wt : GoString) (m : Manager) → str_eq k wt ≡ false → watching (stop m k) wt ≡ watching m wt
unfolding watching stop
watching-stop k wt m miss = ground (arith, lookup-delete k wt m.tails)

clash : {b : Bool} → b ≡ false → b ≡ true → ⊥
clash p q = cc

not_over :
    (now t : Time) (grace : Duration)
    → ltb_ℤ (pos 0) grace ≡ true
    → some t ≡ some now
    → leb_ℤ grace (sub_ℕ now t) ≡ false
not_over now t grace positive e = ground arith

module _ (active : List GoString) (now : Time) (grace : Duration) (wt : GoString)
    (idle0 : Assoc Time) (positive : ltb_ℤ (pos 0) grace ≡ true) where
  expires :
      (k : GoString) (m : Manager) (idle : Assoc Time) (t : Time)
      → Watched wt now idle0 (m, idle)
      → lookup k idle ≡ some t
      → leb_ℤ grace (sub_ℕ now t) ≡ true
      → Watched wt now idle0 (stop m k, delete k idle) ⊎ Expired wt now grace idle0
  expires k m idle t (w, inl same) e over = elim (Bool-cases (str_eq k wt)) [
    | inl hit ↦
        inr (t, sym same ∙ ap (λ x. lookup x idle) (sym ((str_eq_iff k wt).0 hit)) ∙ e, over)
    | inr miss ↦ inl (watching-stop k wt m miss ∙ w, inl (ground (arith, lookup-delete k wt idle)))
  ]
  expires k m idle t (w, inr recent) e over = elim (Bool-cases (str_eq k wt)) [
    | inl hit ↦ absurd (
        clash
          (not_over now t grace positive
            (sym e ∙ ap (λ x. lookup x idle) ((str_eq_iff k wt).0 hit) ∙ recent))
          over)
    | inr miss ↦ inl (watching-stop k wt m miss ∙ w, inr (ground (arith, lookup-delete k wt idle)))
  ]

  step-Watched :
      (k : GoString) (m : Manager) (idle : Assoc Time)
      → Watched wt now idle0 (m, idle)
      → Watched wt now idle0 (tear_down active now grace k (m, idle)) ⊎ Expired wt now grace idle0
  unfolding tear_down
  step-Watched k m idle h = elim (Bool-cases (member k active)) [
    | inl e ↦ rw (e, tear_down) (inl h)
    | inr e ↦ elim (Option-cases (lookup k idle)) [
      | inl n ↦ rw (e, n, tear_down) (inl (h.0, ground (arith, h.1, lookup-insert k wt now idle)))
      | inr (t, f) ↦ elim (Bool-cases (leb_ℤ grace (sub_ℕ now t))) [
        | inl g ↦ rw (e, f, g, tear_down) (expires k m idle t h f g)
        | inr g ↦ rw (e, f, g, tear_down) (inl h)
      ]
    ]
  ]

  steps-Watched :
      (keys : List GoString) (m : Manager) (idle : Assoc Time)
      → Watched wt now idle0 (m, idle)
      → Watched wt now idle0 (tear_down_all active now grace keys (m, idle))
        ⊎ Expired wt now grace idle0
  unfolding tear_down_all
  steps-Watched [] m idle h = inl h
  steps-Watched (k ∷ rest) m idle h = elim (step-Watched k m idle h) [
    | inl k' ↦ steps-Watched rest _ _ k'
    | inr x ↦ inr x
  ]

lookup-watch_all :
    (v : GoString) (active : List GoString) (m : Manager) (idle : Assoc Time)
    → member v active ≡ false
    → lookup v (watch_all active (m, idle)).1 ≡ lookup v idle
unfolding watch_all member
lookup-watch_all v [] m idle h = refl
lookup-watch_all v (wt ∷ rest) m idle h = ground (
  arith,
  lookup-watch_all v rest (watch m wt) (delete wt idle),
  lookup-delete wt v idle,
  str_eq_iff wt v,
  str_eq_iff v wt,
)

-- A pass stops watching a worktree only where no build is active in it and an earlier pass noted it as
-- idle, for at least the grace period, which is positive.
pub reconcile_drops :
    (m : Manager) (idle : Assoc Time) (reg : Registry) (now : Time) (grace : Duration)
    (wt : GoString)
    → is_empty wt ≡ false
    → ltb_ℤ (pos 0) grace ≡ true
    → watching m wt ≡ true
    → watching (reconcile (m, idle) reg now grace).0 wt ≡ false
    → (any (is_active_in wt) (snapshot reg) ≡ false) × Expired wt now grace idle
unfolding reconcile
reconcile_drops m idle reg now grace wt named positive before after =
    elim (Bool-cases (any (is_active_in wt) (snapshot reg))) [
      | inl e ↦ absurd (clash after (reconcile-watching m idle reg now grace wt named e))
      | inr e ↦ (e, idle_long (member-active_worktrees wt (snapshot reg) named ∙ e))
    ]
  where
    wts : List GoString
    wts = active_worktrees (snapshot reg)

    m' : Manager
    m' = (watch_all wts (m, idle)).0

    idle' : Assoc Time
    idle' = (watch_all wts (m, idle)).1

    idle_long : member wt wts ≡ false → Expired wt now grace idle
    idle_long out =
        elim (steps-Watched wts now grace wt idle positive (map (λ e. e.0) m'.tails) m' idle' (
          ground (arith, watching-watch_all wt wts m idle named, before),
          inl (lookup-watch_all wt wts m idle out),
        )) [ inl w ↦ absurd (clash after w.0) | inr x ↦ x ]
