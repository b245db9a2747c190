-- ===== src/Bep/Manager/Watching.antt =====
-- What a pass of the supervisor watches.
use bazel_broker.Common.{
  ◌≡◌, refl, ◌∙◌, Bool, true, false, ◌&&◌, ◌||◌, not, List, [], ◌∷◌, any, map, GoString, is_empty,
  str_eq, str_eq_iff, Assoc, delete, lookup-insert, lookup-delete, arith,
}
use bazel_broker.Admission.Types.{Time, Duration}
use bazel_broker.Admission.Targets.{member}
use bazel_broker.Build.{is_terminal, Build}
use bazel_broker.Registry.{Registry}
use bazel_broker.Registry.Reports.{snapshot}
use bazel_broker.Bep.Manager.{
  Manager, watch, stop, watching, active_worktrees, watch_all, tear_down, tear_down_all, reconcile,
}

-- Whether an active build is in the worktree.
abbrev pub is_active_in : GoString → Build → Bool
is_active_in wt b = str_eq b.worktree wt && not (is_terminal b.state)

pub member-active_worktrees :
    (wt : GoString) (builds : List Build)
    → is_empty wt ≡ false
    → member wt (active_worktrees builds) ≡ any (is_active_in wt) builds
unfolding member active_worktrees
member-active_worktrees wt [] named = refl
member-active_worktrees wt (b ∷ builds) named = ground (
  arith,
  member-active_worktrees wt builds named,
  str_eq_iff b.worktree wt,
  member-active_worktrees b.worktree builds,
)

-- `watch` watches what it is given, and drops nothing.
watching-watch :
    (m : Manager) (wt v : GoString)
    → watching (watch m wt) v ≡ (watching m v || (str_eq wt v && not (is_empty wt)))
unfolding watching watch
watching-watch m wt v = ground (arith, lookup-insert wt v m.next m.tails, str_eq_iff wt v)

pub watching-watch_all :
    (v : GoString) (active : List GoString) (m : Manager) (idle : Assoc Time)
    → is_empty v ≡ false
    → watching (watch_all active (m, idle)).0 v ≡ (watching m v || member v active)
unfolding watch_all member
watching-watch_all v [] m idle named = ground arith
watching-watch_all v (wt ∷ rest) m idle named = ground (
  arith,
  watching-watch_all v rest (watch m wt) (delete wt idle) named,
  watching-watch m wt v,
  str_eq_iff wt v,
)

watching-tear_down :
    (active : List GoString) (now : Time) (grace : Duration) (wt v : GoString) (m : Manager)
    (idle : Assoc Time)
    → member v active ≡ true
    → watching (tear_down active now grace wt (m, idle)).0 v ≡ watching m v
unfolding watching tear_down stop
watching-tear_down active now grace wt v m idle h =
    ground (arith, lookup-delete wt v m.tails, str_eq_iff wt v)

watching-tear_down_all :
    (active : List GoString) (now : Time) (grace : Duration) (keys : List GoString) (v : GoString)
    (m : Manager) (idle : Assoc Time)
    → member v active ≡ true
    → watching (tear_down_all active now grace keys (m, idle)).0 v ≡ watching m v
unfolding tear_down_all
watching-tear_down_all active now grace [] v m idle h = refl
watching-tear_down_all active now grace (wt ∷ rest) v m idle h =
    let (m', idle') = tear_down active now grace wt (m, idle) in
    watching-tear_down_all active now grace rest v m' idle' h
    ∙ watching-tear_down active now grace wt v m idle h

-- After a pass every worktree with an active build is watched.
pub reconcile-watching :
    (m : Manager) (idle : Assoc Time) (reg : Registry) (now : Time) (grace : Duration)
    (wt : GoString)
    → is_empty wt ≡ false
    → any (is_active_in wt) (snapshot reg) ≡ true
    → watching (reconcile (m, idle) reg now grace).0 wt ≡ true
unfolding reconcile
reconcile-watching m idle reg now grace wt named active =
    let wts = active_worktrees (snapshot reg) in
    let in_wts = member-active_worktrees wt (snapshot reg) named ∙ active in
    let (m', idle') = watch_all wts (m, idle) in
    ground (
      arith,
      watching-tear_down_all wts now grace (map (λ e. e.0) m'.tails) wt m' idle' in_wts,
      watching-watch_all wt wts m idle named,
      in_wts,
    )
