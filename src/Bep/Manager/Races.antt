-- ===== src/Bep/Manager/Races.antt =====
-- The end of a tailer that was stopped, after its worktree is watched again.
use bazel_broker.Common.{
  ℕ, suc, ◌≡◌, ◌≤◌, ◌<◌, ◌+◌, refl, sym, ap, subst, ◌∙◌, Bool, true, false, ◌&&◌, not, none, List,
  [], ◌∷◌, ◌++◌, tally, keep, GoString, is_empty, str_eq, str_eq_refl, lookup, insert,
  lookup-delete, ◌==◌, if◌then◌else◌, arith,
}
use bazel_broker.Bep.Manager.{Tailer, Manager, watch, stop, watching, tailer_exits}

-- How many tailers that are not cancelled read the worktree's file.
abbrev pub live_tailers : GoString → Manager → ℕ
live_tailers wt m = tally (λ (t : Tailer). str_eq t.worktree wt && not t.cancelled) m.tailers

tally-snoc :
    (p : Tailer → Bool) (xs : List Tailer) (u : Tailer)
    → tally p (xs ++ u ∷ []) ≡ tally p xs + (if p u then 1 else 0)
tally-snoc p [] u = ground arith
tally-snoc p (x ∷ xs) u = ground (arith, tally-snoc p xs u)

tally-keep_snoc :
    (p q : Tailer → Bool) (xs : List Tailer) (u : Tailer)
    → p u ≡ true
    → q u ≡ true
    → 1 ≤ tally p (keep q (xs ++ u ∷ []))
tally-keep_snoc p q [] u h k = ground arith
tally-keep_snoc p q (x ∷ xs) u h k = ground (arith, tally-keep_snoc p q xs u h k)

next-stop : (m : Manager) (wt : GoString) → (stop m wt).next ≡ m.next
unfolding stop
next-stop m wt = ground arith

lookup-stop : (m : Manager) (wt : GoString) → lookup wt (stop m wt).tails ≡ none
unfolding stop
lookup-stop m wt = ground (arith, lookup-delete wt wt m.tails, str_eq_refl wt)

-- What `watch` does for a worktree without a tailer.
watch-new :
    (m : Manager) (wt : GoString)
    → is_empty wt ≡ false
    → lookup wt m.tails ≡ none
    → watch m wt ≡ record {
      tails = insert wt m.next m.tails;
      tailers = m.tailers ++ record { number = m.next; worktree = wt; cancelled = false } ∷ [];
      next = suc m.next;
    }
unfolding watch
watch-new m wt named new = rw (named, new, watch) refl

-- If a worktree is stopped and watched again before its first tailer has returned, the end of that tailer
-- drops the new one from the manager: the worktree counts as not watched while its tailer runs, and the
-- next call of `Watch` starts one more.
pub tailer_exits-watch :
    (m : Manager) (t : Tailer)
    → is_empty t.worktree ≡ false
    → t.number < m.next
    → let m' = tailer_exits (watch (stop m t.worktree) t.worktree) t in
      (watching m' t.worktree ≡ false)
      × (1 ≤ live_tailers t.worktree m')
      × (suc (live_tailers t.worktree m') ≡ live_tailers t.worktree (watch m' t.worktree))
unfolding watching tailer_exits
tailer_exits-watch m t named old = (
  ground (arith, gone),
  subst (λ x. 1 ≤ live_tailers wt (tailer_exits x t)) (sym started)
      (tally-keep_snoc live (λ u. not (u.number == t.number)) m1.tailers fresh is_live
        (ground (arith, same_next))),
  sym (
      ap (live_tailers wt) (watch-new m3 wt named gone)
      ∙ tally-snoc live m3.tailers (record { number = m3.next; worktree = wt; cancelled = false })
      ∙ ground (arith, str_eq_refl wt)),
)
  where
    wt : GoString
    wt = t.worktree

    live : Tailer → Bool
    live u = str_eq u.worktree wt && not u.cancelled

    m1 : Manager
    m1 = stop m wt

    m3 : Manager
    m3 = tailer_exits (watch m1 wt) t

    same_next : m1.next ≡ m.next
    same_next = next-stop m wt

    stopped : lookup wt m1.tails ≡ none
    stopped = ground (arith, lookup-stop m wt)

    fresh : Tailer
    fresh = record { number = m1.next; worktree = wt; cancelled = false }

    m2 : Manager
    m2 = record {
      tails = insert wt m1.next m1.tails;
      tailers = m1.tailers ++ fresh ∷ [];
      next = suc m1.next;
    }

    started : watch m1 wt ≡ m2
    started = watch-new m1 wt named stopped

    is_live : live fresh ≡ true
    is_live = ground (arith, str_eq_refl wt)

    gone : lookup wt m3.tails ≡ none
    gone = ground (arith, lookup-delete wt wt (watch m1 wt).tails, str_eq_refl wt)
