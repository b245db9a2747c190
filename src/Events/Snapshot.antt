-- ===== src/Events/Snapshot.antt =====
-- The first frame of a connection, as the view that the client makes of it.
use bazel_broker.Common.{
  ◌≡◌, refl, ap, ◌∙◌, subst, inl, inr, Option, none, some, List, [], ◌∷◌, GoString, str_eq,
  str_eq_iff, Assoc, lookup, insert, lookup-insert, IsMap, if◌then◌else◌, Bool-cases, arith,
}
use bazel_broker.Admission.Types.{Time}
use bazel_broker.Build.{Build, ApiBuild, to_api}
use bazel_broker.Registry.{Registry}
use bazel_broker.Registry.Reports.{
  values, to_api_all, insert_newest_api, sort_newest_api, snapshot_api,
}
use bazel_broker.Registry.Keyed.{IsKeyed, IsIndex}
use bazel_broker.Cli.Watch.{insert_builds, apply_event, apply_all}
use bazel_broker.Events.{snapshot_frame}
use bazel_broker.Events.View.{Shows, Mirrors}

unfoldable by_id : List ApiBuild → Assoc ApiBuild
by_id [] = []
by_id (a ∷ bs) = (a.invocation_id, a) ∷ by_id bs

or_else : Option ApiBuild → Option ApiBuild → Option ApiBuild
or_else none other = other
or_else (some a) other = some a

lookup-insert_builds :
    (id : GoString) (bs : List ApiBuild) (view : Assoc ApiBuild)
    → IsMap (by_id bs)
    → lookup id (insert_builds bs view) ≡ or_else (lookup id (by_id bs)) (lookup id view)
unfolding lookup insert_builds by_id or_else
lookup-insert_builds id [] view h = refl
lookup-insert_builds id (a ∷ bs) view h =
    lookup-insert_builds id bs (insert a.invocation_id a view) h.1
    ∙ ground (arith, lookup-insert a.invocation_id id a view, str_eq_iff a.invocation_id id)

lookup-insert_newest :
    (id : GoString) (a : ApiBuild) (bs : List ApiBuild)
    → lookup a.invocation_id (by_id bs) ≡ none
    → lookup id (by_id (insert_newest_api a bs)) ≡ lookup id (by_id (a ∷ bs))
unfolding lookup insert_newest_api by_id
lookup-insert_newest id a [] h = refl
lookup-insert_newest id a (c ∷ bs) h = ground (
  arith,
  lookup-insert_newest id a bs,
  str_eq_iff a.invocation_id id,
  str_eq_iff c.invocation_id id,
  str_eq_iff c.invocation_id a.invocation_id,
)

insert_newest-IsMap :
    (a : ApiBuild) (bs : List ApiBuild)
    → IsMap (by_id (a ∷ bs))
    → IsMap (by_id (insert_newest_api a bs))
unfolding lookup insert_newest_api by_id
insert_newest-IsMap a [] h = h
insert_newest-IsMap a (c ∷ bs) h = ground (
  arith,
  insert_newest-IsMap a bs,
  lookup-insert_newest c.invocation_id a bs,
  str_eq_iff a.invocation_id c.invocation_id,
  str_eq_iff c.invocation_id a.invocation_id,
)

lookup-cons :
    (id k : GoString) (a : ApiBuild) (m n : Assoc ApiBuild)
    → lookup id m ≡ lookup id n
    → lookup id ((k, a) ∷ m) ≡ lookup id ((k, a) ∷ n)
unfolding lookup
lookup-cons id k a m n h = ap (λ x. if str_eq k id then some a else x) h

sort_newest-IsMap :
    (bs : List ApiBuild)
    → IsMap (by_id bs)
    → IsMap (by_id (sort_newest_api bs))
      × ((id : GoString) → lookup id (by_id (sort_newest_api bs)) ≡ lookup id (by_id bs))
unfolding sort_newest_api by_id
sort_newest-IsMap [] h = (h, λ id. refl)
sort_newest-IsMap (a ∷ bs) h =
    let (mapped, same) = sort_newest-IsMap bs h.1 in
    let absent = same a.invocation_id ∙ h.0 in
    (
      insert_newest-IsMap a (sort_newest_api bs) (absent, mapped),
      λ id.
          lookup-insert_newest id a (sort_newest_api bs) absent
          ∙ lookup-cons id a.invocation_id a (by_id (sort_newest_api bs)) (by_id bs) (same id),
    )

to_api_all-Shows :
    (id : GoString) (m : Assoc Build) (now : Time)
    → IsKeyed m
    → Shows (lookup id (by_id (to_api_all (values m) now))) (lookup id m)
unfolding lookup values by_id to_api
to_api_all-Shows id [] now h = tt
to_api_all-Shows id ((k, b) ∷ m) now h = elim (Bool-cases (str_eq k id)) [
  | inl e ↦ rw (h.0, e) (now, refl)
  | inr e ↦ rw (h.0, e) (to_api_all-Shows id m now h.1)
]

Shows-none : (x : Option ApiBuild) → Shows x none → x ≡ none
Shows-none none h = refl
Shows-none (some a) h = elim h [ ]

to_api_all-IsMap :
    (m : Assoc Build) (now : Time) → IsIndex m → IsMap (by_id (to_api_all (values m) now))
unfolding values by_id to_api
to_api_all-IsMap [] now h = tt
to_api_all-IsMap ((k, b) ∷ m) now h = (
  Shows-none (lookup b.invocation_id (by_id (to_api_all (values m) now))) (
      subst (Shows (lookup b.invocation_id (by_id (to_api_all (values m) now))))
        (ap (λ x. lookup x m) h.1.0 ∙ h.0.0) (to_api_all-Shows b.invocation_id m now h.1.1)),
  to_api_all-IsMap m now (h.0.1, h.1.1),
)

or_else_none : (x : Option ApiBuild) (id : GoString) → or_else x (lookup id []) ≡ x
unfolding or_else lookup
or_else_none none id = refl
or_else_none (some a) id = refl

lookup-snapshot :
    (r : Registry) (now : Time) (id : GoString)
    → IsIndex r.builds
    → lookup id (insert_builds (snapshot_api r now) [])
      ≡ lookup id (by_id (to_api_all (values r.builds) now))
unfolding snapshot_api
lookup-snapshot r now id h =
    let (mapped, same) =
      sort_newest-IsMap (to_api_all (values r.builds) now) (to_api_all-IsMap r.builds now h) in
    lookup-insert_builds id (sort_newest_api (to_api_all (values r.builds) now)) [] mapped
    ∙ or_else_none (lookup id (by_id (sort_newest_api (to_api_all (values r.builds) now)))) id
    ∙ same id

pub snapshot-Mirrors :
    (r : Registry) (now : Time)
    → IsIndex r.builds
    → Mirrors (apply_all [] (snapshot_frame r now ∷ [])) r.builds
unfolding apply_all apply_event snapshot_frame snapshot_api
snapshot-Mirrors r now h id = rw (lookup-snapshot r now id h) (to_api_all-Shows id r.builds now h.1)
