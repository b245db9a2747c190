-- ===== src/Registry/Keyed.antt =====
-- The builds of the registry under their own ids, and the mutations as one of three forms.
use bazel_broker.Common.{
  ◌≡◌, refl, ap, Bool, inl, inr, none, some, [], ◌∷◌, ◌&&◌, GoString, is_empty, str_eq, str_eq_iff,
  All, Assoc, lookup, insert, IsMap, insert-IsMap, ℤ, is_zero, if◌then◌else◌, Bool-cases,
  Option-cases, arith,
}
use bazel_broker.Admission.Types.{Time}
use bazel_broker.Build.{is_terminal, Build}
use bazel_broker.Registry.{
  Registry, publish, persist, broadcast_build, store_build, register_merge, stored_or_new, register,
  finish, deregister,
}
use bazel_broker.Registry.Upsert.{find_by_pid, upsert_target, upsert_merge, upsert}
use bazel_broker.Registry.Reap.{reap_build, reap_all, reap_missing_discovered}
use bazel_broker.Registry.Lifecycle.{
  Change, registers, deregisters, upserts, reaps, change, reap_all-IsMap, builds-publish_all,
}

-- Every build stands under its id.
abbrev pub IsKeyed : Assoc Build → Type 0
IsKeyed m = All (λ (k, b). b.invocation_id ≡ k) m

insert-IsKeyed :
    (k : GoString) (b : Build) (m : Assoc Build)
    → b.invocation_id ≡ k
    → IsKeyed m
    → IsKeyed (insert k b m)
unfolding insert
insert-IsKeyed k b [] e h = (e, tt)
insert-IsKeyed k b ((j, c) ∷ m) e h = ground (arith, insert-IsKeyed k b m e, str_eq_iff j k)

lookup-IsKeyed :
    (k : GoString) (b : Build) (m : Assoc Build)
    → IsKeyed m
    → lookup k m ≡ some b
    → b.invocation_id ≡ k
unfolding lookup
lookup-IsKeyed k b [] h e = cc
lookup-IsKeyed k b ((j, c) ∷ m) h e = elim (Bool-cases (str_eq j k)) [
  | inl same ↦ ground (arith, str_eq_iff j k, ap (λ (x : Build). x.invocation_id) {x = c} {y = b})
  | inr other ↦ lookup-IsKeyed k b m h.1 (ground arith)
]

find_by_pid-IsKeyed :
    (pid : ℤ) (m : Assoc Build) (k : GoString) (b : Build)
    → IsKeyed m
    → find_by_pid pid m ≡ some (k, b)
    → b.invocation_id ≡ k
unfolding find_by_pid
find_by_pid-IsKeyed pid [] k b h e = cc
find_by_pid-IsKeyed pid ((j, c) ∷ m) k b h e =
    ground (
      arith,
      find_by_pid-IsKeyed pid m k b h.1,
      ap (λ (x : Build). x.invocation_id) {x = c} {y = b},
    )

reap_all-IsKeyed :
    (seen : ℤ → Bool) (now : Time) (m : Assoc Build) → IsKeyed m → IsKeyed (reap_all seen now m)
unfolding reap_all reap_build
reap_all-IsKeyed seen now [] h = tt
reap_all-IsKeyed seen now ((k, b) ∷ m) h = (ground arith, reap_all-IsKeyed seen now m h.1)

stored_or_new-id :
    (r : Registry) (id : GoString) (now : Time)
    → IsKeyed r.builds
    → (stored_or_new r id now).invocation_id ≡ id
unfolding stored_or_new
stored_or_new-id r id now h = elim (Option-cases (lookup id r.builds)) [
  | inl e ↦ rw (e, stored_or_new) refl
  | inr (b, e) ↦ rw (e, stored_or_new) (lookup-IsKeyed id b r.builds h e)
]

upsert_target-id :
    (m : Assoc Build) (b : Build) (now : Time)
    → IsKeyed m
    → (upsert_target m b now).1.invocation_id ≡ (upsert_target m b now).0
unfolding upsert_target
upsert_target-id m b now h =
    elim (Option-cases (if is_zero b.pid then none else find_by_pid b.pid m)) [
      | inl n ↦
          elim (Option-cases
            (if is_empty b.invocation_id then none else lookup b.invocation_id m)) [
              | inl e ↦ rw (n, e, upsert_target) refl
              | inr (s, e) ↦
                  rw (n, e, upsert_target) (lookup-IsKeyed b.invocation_id s m h (ground arith))
            ]
      | inr ((k, s), f) ↦ rw (f, upsert_target) (find_by_pid-IsKeyed b.pid m k s h (ground arith))
    ]

-- What a mutation does: nothing, or it stores one build and publishes it, or it reaps.
pub data Mutates (r : Registry) : Registry → Type 0 where
  stays : Mutates r r
  stores :
      (k : GoString) (b : Build) (now : Time)
      → b.invocation_id ≡ k
      → Mutates r (publish (store_build r k b) b now)
  reaping : (seen : ℤ → Bool) (now : Time) → Mutates r (reap_missing_discovered r seen now)

register-Mutates :
    (r : Registry) (b : Build) (now : Time) → IsKeyed r.builds → Mutates r (register r b now).0
unfolding register
register-Mutates r b now h = elim (Bool-cases (is_empty b.invocation_id)) [
  | inl e ↦ rw (e, register) stays
  | inr e ↦ elim (Bool-cases (is_empty b.worktree)) [
    | inl w ↦ rw (e, w, register) stays
    | inr w ↦
        rw (e, w, register)
          (stores b.invocation_id (register_merge (stored_or_new r b.invocation_id now) b) now
            (unfold register_merge in stored_or_new-id r b.invocation_id now h))
  ]
]

deregister-Mutates :
    (r : Registry) (k : GoString) (code : ℤ) (now : Time)
    → IsKeyed r.builds
    → Mutates r (deregister r k code now).0
unfolding deregister
deregister-Mutates r k code now h = elim (Bool-cases (is_empty k)) [
  | inl e ↦ rw (e, deregister) stays
  | inr e ↦ elim (Option-cases (lookup k r.builds)) [
    | inl n ↦ rw (e, n, deregister) stays
    | inr (b, f) ↦ elim (Bool-cases (is_terminal b.state)) [
      | inl t ↦ rw (e, f, t, deregister) stays
      | inr t ↦
          rw (e, f, t, deregister)
            (stores k (finish b code now) now (unfold finish in lookup-IsKeyed k b r.builds h f))
    ]
  ]
]

upsert-Mutates :
    (r : Registry) (b : Build) (now : Time) → IsKeyed r.builds → Mutates r (upsert r b now).0
unfolding upsert
upsert-Mutates r b now h = elim (Bool-cases (is_empty b.invocation_id && is_zero b.pid)) [
  | inl e ↦ rw (e, upsert) stays
  | inr e ↦
      rw (e, upsert)
        (stores (upsert_target r.builds b now).0
          (upsert_merge (upsert_target r.builds b now).1 b now) now
          (unfold upsert_merge in upsert_target-id r.builds b now h))
]

pub change-Mutates : (r : Registry) (c : Change) → IsKeyed r.builds → Mutates r (change r c)
unfolding change
change-Mutates r (registers b now) h = register-Mutates r b now h
change-Mutates r (deregisters k code now) h = deregister-Mutates r k code now h
change-Mutates r (upserts b now) h = upsert-Mutates r b now h
change-Mutates r (reaps seen now) h = reaping seen now

-- A map with every build under its id, and each id once.
abbrev pub IsIndex : Assoc Build → Type 0
IsIndex m = IsMap m × IsKeyed m

pub Mutates-IsIndex : {r s : Registry} → Mutates r s → IsIndex r.builds → IsIndex s.builds
unfolding persist broadcast_build reap_missing_discovered
Mutates-IsIndex stays h = h
Mutates-IsIndex {r} (stores k b now e) h =
    (insert-IsMap k b r.builds h.0, insert-IsKeyed k b r.builds e h.1)
Mutates-IsIndex {r} (reaping seen now) h =
    rw builds-publish_all
      (reap_all-IsMap seen now r.builds h.0, reap_all-IsKeyed seen now r.builds h.1)
