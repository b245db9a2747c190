-- ===== src/Registry/Reports/Sorting.antt =====
-- The counts of the registry, its sorted snapshot and the view of the engine.
use mathlib.Core.List.Perm
use mathlib.Core.List.{Perm}
use bazel_broker.Common.{
  ℕ, ◌+◌, ◌≤◌, ◌≡◌, refl, sym, ◌∙◌, ◌⊎◌, inl, inr, Bool, true, false, not, List, [], ◌∷◌, length,
  any, tally, All, Assoc, ltb, Bool-cases, arith,
}
use bazel_broker.Build.{State, is_terminal, Build}
use bazel_broker.Registry.{Registry}
use bazel_broker.Registry.Reports.{
  is_queued, count_build, count_all, counts, values, insert_newest, sort_newest, snapshot,
  active_builds, snapshot_active, any_build_active,
}

-- No build of the list started after the one before it.
abbrev pub IsNewestFirst : List Build → Type 0
IsNewestFirst [] = Unit
IsNewestFirst (b ∷ bs) = All (λ c. c.start_time ≤ b.start_time) bs × IsNewestFirst bs

insert_newest-All :
    (n : ℕ) (b : Build) (bs : List Build)
    → b.start_time ≤ n
    → All (λ c. c.start_time ≤ n) bs
    → All (λ c. c.start_time ≤ n) (insert_newest b bs)
unfolding insert_newest
insert_newest-All n b [] h k = (h, tt)
insert_newest-All n b (c ∷ bs) h k = ground (arith, insert_newest-All n b bs h k.1)

older-All :
    (m n : ℕ) (bs : List Build)
    → m ≤ n
    → All (λ c. c.start_time ≤ m) bs
    → All (λ c. c.start_time ≤ n) bs
older-All m n [] h k = tt
older-All m n (c ∷ bs) h k = (omega arith, older-All m n bs h k.1)

insert_newest-IsNewestFirst :
    (b : Build) (bs : List Build) → IsNewestFirst bs → IsNewestFirst (insert_newest b bs)
unfolding insert_newest
insert_newest-IsNewestFirst b [] h = (tt, tt)
insert_newest-IsNewestFirst b (c ∷ bs) h = ground (
  arith,
  insert_newest-IsNewestFirst b bs h.1,
  insert_newest-All c.start_time b bs,
  older-All c.start_time b.start_time bs,
)

insert_newest-perm : (b : Build) (bs : List Build) → Perm (insert_newest b bs) (b ∷ bs)
unfolding insert_newest
insert_newest-perm b [] = Perm.rfl
insert_newest-perm b (c ∷ bs) = elim (Bool-cases (ltb b.start_time c.start_time)) [
  | inl e ↦
      rw (e, insert_newest) (Perm.trans (Perm.cons c (insert_newest-perm b bs)) (Perm.swap b c bs))
  | inr e ↦ rw (e, insert_newest) Perm.rfl
]

sort_newest-IsNewestFirst : (bs : List Build) → IsNewestFirst (sort_newest bs)
unfolding sort_newest
sort_newest-IsNewestFirst [] = tt
sort_newest-IsNewestFirst (b ∷ bs) =
    insert_newest-IsNewestFirst b (sort_newest bs) (sort_newest-IsNewestFirst bs)

sort_newest-perm : (bs : List Build) → Perm (sort_newest bs) bs
unfolding sort_newest
sort_newest-perm [] = Perm.rfl
sort_newest-perm (b ∷ bs) =
    Perm.trans (insert_newest-perm b (sort_newest bs)) (Perm.cons b (sort_newest-perm bs))

-- The snapshot holds every build of the registry as often as the map does, and the newest start first.
snapshot_lem : (r : Registry) → IsNewestFirst (snapshot r) × Perm (snapshot r) (values r.builds)
unfolding snapshot
snapshot_lem r = (sort_newest-IsNewestFirst (values r.builds), sort_newest-perm (values r.builds))

abbrev pub is_active : Build → Bool
is_active b = not (is_terminal b.state)

length-active_builds : (bs : List Build) → length (active_builds bs) ≡ tally is_active bs
unfolding active_builds
length-active_builds [] = refl
length-active_builds (b ∷ bs) = ground (arith, length-active_builds bs)

tally-insert_newest :
    (b : Build) (bs : List Build) → tally is_active (insert_newest b bs) ≡ tally is_active (b ∷ bs)
unfolding insert_newest
tally-insert_newest b [] = refl
tally-insert_newest b (c ∷ bs) = ground (arith, tally-insert_newest b bs)

tally-sort_newest : (bs : List Build) → tally is_active (sort_newest bs) ≡ tally is_active bs
unfolding sort_newest
tally-sort_newest [] = refl
tally-sort_newest (b ∷ bs) =
    ground (arith, tally-insert_newest b (sort_newest bs), tally-sort_newest bs)

is_queued-active : (s : State) → is_queued s ≡ true → is_terminal s ≡ false
unfolding is_terminal
is_queued-active State.queued h = refl
is_queued-active State.running h = cc
is_queued-active _ h = cc

counts_split :
    (m : Assoc Build)
    → ((count_all m).building + (count_all m).queued ≡ tally is_active (values m))
      × ((count_all m).total ≡ length (values m))
unfolding count_all count_build values
counts_split [] = (refl, refl)
counts_split ((k, b) ∷ m) = ground (arith, counts_split m, is_queued-active b.state)

any-tally : (bs : List Build) → (any is_active bs ≡ true) ⊎ (tally is_active bs ≡ 0)
any-tally [] = inr refl
any-tally (b ∷ bs) = ground (arith, any-tally bs)

-- The counts of the health report, the view of the admission engine and the garbage collector's guard
-- agree: the builds that are building or queued are as many as the engine sees, the guard is open only
-- when there are none, and the total counts every build.
counts_lem :
    (r : Registry)
    → ((counts r).building + (counts r).queued ≡ length (snapshot_active r))
      × (any_build_active r ≡ false → (counts r).building + (counts r).queued ≡ 0)
      × ((counts r).total ≡ length (values r.builds))
unfolding counts snapshot_active snapshot any_build_active
counts_lem r =
    let (split, all) = counts_split r.builds in
    let sorted = tally-sort_newest (values r.builds) in
    (
      split ∙ sym sorted ∙ sym (length-active_builds (sort_newest (values r.builds))),
      λ h. ground (arith, split, sorted, any-tally (sort_newest (values r.builds))),
      all,
    )
