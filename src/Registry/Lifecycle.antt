-- ===== src/Registry/Lifecycle.antt =====
-- Histories of mutations of the registry.
use bazel_broker.Common.{
  ◌≡◌, refl, sym, ap, subst, inl, inr, Bool, true, false, ◌&&◌, none, some, List, [], ◌∷◌, GoString,
  str_eq, str_eq_iff, str_eq_refl, is_empty, Assoc, lookup, insert, lookup-insert, IsMap,
  insert-IsMap, ℤ, is_zero, if◌then◌else◌, Bool-cases, Option-cases, arith,
}
use bazel_broker.Admission.Types.{Time}
use bazel_broker.Build.{is_terminal, Build}
use bazel_broker.Registry.{
  Registry, publish, persist, broadcast_build, register_merge, stored_or_new, register, finish,
  deregister,
}
use bazel_broker.Registry.Upsert.{find_by_pid, pid_name, upsert_target, upsert_merge, upsert}
use bazel_broker.Registry.Reap.{reap_build, reap_all, publish_all, reap_missing_discovered}
use bazel_broker.Registry.Follows.{
  Follows, Follows-refl, Follows-trans, register_merge-Follows, upsert_merge-Follows,
  finish-Follows, reap_build-Follows,
}

find_by_pid-lookup :
    (pid : ℤ) (m : Assoc Build) (k : GoString) (b : Build)
    → IsMap m
    → find_by_pid pid m ≡ some (k, b)
    → lookup k m ≡ some b
unfolding find_by_pid lookup
find_by_pid-lookup pid [] k b h e = cc
find_by_pid-lookup pid ((j, c) ∷ m) k b h e = ground (
  arith,
  find_by_pid-lookup pid m k b h.1,
  str_eq_iff j k,
  str_eq_refl k,
  λ (q : j ≡ k). ap (λ x. lookup x m) q,
)

-- The build under `id` in `m` is in `m'`, later in its life.
abbrev pub Continues : GoString → Assoc Build → Assoc Build → Type 0
Continues id m m' =
    (old : Build)
    → lookup id m ≡ some old
    → (new : Build) × (lookup id m' ≡ some new) × Follows old new

-- A map that a mutation leaves, with its keys still distinct.
abbrev Keeps : GoString → Assoc Build → Assoc Build → Type 0
Keeps id m m' = Continues id m m' × (IsMap m → IsMap m')

same-Keeps : (id : GoString) (m : Assoc Build) → Keeps id m m
same-Keeps id m = (λ old h. (old, h, Follows-refl old), λ k. k)

insert-Keeps :
    (id k : GoString) (m : Assoc Build) (b : Build)
    → ((old : Build) → lookup k m ≡ some old → str_eq k id ≡ true → Follows old b)
    → Keeps id m (insert k b m)
insert-Keeps id k m b f = (
  λ old h. elim (Bool-cases (str_eq k id)) [
    | inl e ↦ (
      b,
      ground (arith, lookup-insert k id b m),
      f old (subst (λ j. lookup j m ≡ some old) (sym ((str_eq_iff k id).0 e)) h) e,
    )
    | inr e ↦ (old, ground (arith, lookup-insert k id b m), Follows-refl old)
  ],
  insert-IsMap k b m,
)

stored_or_new_old :
    (r : Registry) (id : GoString) (now : Time) (old : Build)
    → lookup id r.builds ≡ some old
    → stored_or_new r id now ≡ old
unfolding stored_or_new
stored_or_new_old r id now old e = rw (e, stored_or_new)

register-Keeps :
    (r : Registry) (b : Build) (now : Time) (id : GoString)
    → Keeps id r.builds (register r b now).0.builds
unfolding register persist broadcast_build
register-Keeps r b now id = elim (Bool-cases (is_empty b.invocation_id)) [
  | inl h ↦ rw (h, register) (same-Keeps id r.builds)
  | inr h ↦ elim (Bool-cases (is_empty b.worktree)) [
    | inl w ↦ rw (h, w, register) (same-Keeps id r.builds)
    | inr w ↦ rw (h, w, register) (insert-Keeps id b.invocation_id r.builds _ merged)
  ]
]
  where
    merged :
        (old : Build)
        → lookup b.invocation_id r.builds ≡ some old
        → str_eq b.invocation_id id ≡ true
        → Follows old (register_merge (stored_or_new r b.invocation_id now) b)
    merged old e _ =
        rw (stored_or_new_old r b.invocation_id now old e) (register_merge-Follows old b)

deregister-Keeps :
    (r : Registry) (k : GoString) (code : ℤ) (now : Time) (id : GoString)
    → Keeps id r.builds (deregister r k code now).0.builds
unfolding deregister persist broadcast_build
deregister-Keeps r k code now id = elim (Bool-cases (is_empty k)) [
  | inl h ↦ rw (h, deregister) (same-Keeps id r.builds)
  | inr h ↦ elim (Option-cases (lookup k r.builds)) [
    | inl e ↦ rw (h, e, deregister) (same-Keeps id r.builds)
    | inr (b, e) ↦ elim (Bool-cases (is_terminal b.state)) [
      | inl t ↦ rw (h, e, t, deregister) (same-Keeps id r.builds)
      | inr t ↦
          rw (h, e, t, deregister)
            (insert-Keeps id k r.builds (finish b code now) (λ old f _.
              let same : b ≡ old = cc in
              subst (λ o. Follows o (finish b code now)) same (finish-Follows b code now t)))
    ]
  ]
]

upsert_target_old :
    (m : Assoc Build) (b : Build) (now : Time) (id : GoString) (old : Build)
    → ((p : ℤ) → str_eq (pid_name p) id ≡ false)
    → IsMap m
    → lookup (upsert_target m b now).0 m ≡ some old
    → str_eq (upsert_target m b now).0 id ≡ true
    → (upsert_target m b now).1 ≡ old
unfolding upsert_target
upsert_target_old m b now id old real distinct e hit =
    elim (Option-cases (if is_zero b.pid then none else find_by_pid b.pid m)) [
      | inl n ↦ ground (arith, real b.pid, n)
      | inr ((k, s), f) ↦ ground (arith, find_by_pid-lookup b.pid m k s distinct, f)
    ]

upsert-Keeps :
    (r : Registry) (b : Build) (now : Time) (id : GoString)
    → ((p : ℤ) → str_eq (pid_name p) id ≡ false)
    → IsMap r.builds
    → Keeps id r.builds (upsert r b now).0.builds
unfolding upsert persist broadcast_build
upsert-Keeps r b now id real distinct =
    elim (Bool-cases (is_empty b.invocation_id && is_zero b.pid)) [
      | inl h ↦ rw (h, upsert) (same-Keeps id r.builds)
      | inr h ↦
          rw (h, upsert)
            (insert-Keeps id _ r.builds _ λ old e hit.
              subst (λ s. Follows old (upsert_merge s b now))
                (sym (upsert_target_old r.builds b now id old real distinct e hit))
                (upsert_merge-Follows old b now))
    ]

lookup-reap_all :
    (seen : ℤ → Bool) (now : Time) (id : GoString) (m : Assoc Build)
    → lookup id (reap_all seen now m)
      ≡ elim (lookup id m) [ none ↦ none | some b ↦ some (reap_build seen now b) ]
unfolding lookup reap_all
lookup-reap_all seen now id [] = refl
lookup-reap_all seen now id ((k, b) ∷ m) = ground (arith, lookup-reap_all seen now id m)

pub reap_all-IsMap :
    (seen : ℤ → Bool) (now : Time) (m : Assoc Build) → IsMap m → IsMap (reap_all seen now m)
unfolding reap_all
reap_all-IsMap seen now [] h = tt
reap_all-IsMap seen now ((k, b) ∷ m) h =
    (ground (arith, lookup-reap_all seen now k m), reap_all-IsMap seen now m h.1)

pub builds-publish_all :
    (r : Registry) (bs : List Build) (now : Time) → (publish_all r bs now).builds ≡ r.builds
unfolding publish_all persist broadcast_build
builds-publish_all r [] now = refl
builds-publish_all r (b ∷ bs) now = builds-publish_all (publish r b now) bs now

reap-Keeps :
    (r : Registry) (seen : ℤ → Bool) (now : Time) (id : GoString)
    → Keeps id r.builds (reap_missing_discovered r seen now).builds
unfolding reap_missing_discovered
reap-Keeps r seen now id = rw builds-publish_all (
  λ old h. (
    reap_build seen now old,
    ground (arith, lookup-reap_all seen now id r.builds),
    reap_build-Follows seen now old,
  ),
  reap_all-IsMap seen now r.builds,
)

-- The mutations of the registry: by a handler, by discovery or by the event stream.
pub data Change : Type 0 where
  registers : Build → Time → Change
  deregisters : GoString → (exit_code : ℤ) → Time → Change
  upserts : Build → Time → Change
  reaps : (ℤ → Bool) → Time → Change

unfoldable pub change : Registry → Change → Registry
change r (registers b now) = (register r b now).0
change r (deregisters id code now) = (deregister r id code now).0
change r (upserts b now) = (upsert r b now).0
change r (reaps seen now) = reap_missing_discovered r seen now

unfoldable pub changes : Registry → List Change → Registry
changes r [] = r
changes r (c ∷ cs) = changes (change r c) cs

change-Keeps :
    (r : Registry) (c : Change) (id : GoString)
    → ((p : ℤ) → str_eq (pid_name p) id ≡ false)
    → IsMap r.builds
    → Keeps id r.builds (change r c).builds
unfolding change
change-Keeps r (registers b now) id real distinct = register-Keeps r b now id
change-Keeps r (deregisters k code now) id real distinct = deregister-Keeps r k code now id
change-Keeps r (upserts b now) id real distinct = upsert-Keeps r b now id real distinct
change-Keeps r (reaps seen now) id real distinct = reap-Keeps r seen now id

-- Through any history of mutations a build whose id is not made up from a pid stays in the registry under
-- its id, with its start; and once its state is terminal, its state, end and exit code never change.
pub changes-Continues :
    (r : Registry) (cs : List Change) (id : GoString)
    → ((p : ℤ) → str_eq (pid_name p) id ≡ false)
    → IsMap r.builds
    → Continues id r.builds (changes r cs).builds
unfolding changes
changes-Continues r [] id real distinct old h = (old, h, Follows-refl old)
changes-Continues r (c ∷ cs) id real distinct old h =
    let (kept, still) = change-Keeps r c id real distinct in
    let (mid, at_mid, f) = kept old h in
    let (new, at_new, g) = changes-Continues (change r c) cs id real (still distinct) mid at_mid in
    (new, at_new, Follows-trans old mid new f g)
