-- ===== src/Events/View.antt =====
-- The view of a client, against the builds of the registry.
use bazel_broker.Common.{
  ℕ, ◌≤◌, ◌≡◌, refl, ap, subst, ◌∙◌, inl, inr, Bool, false, ◌&&◌, Option, none, some, List, [], ◌∷◌,
  ◌++◌, tally, GoString, str_eq, str_eq_iff, Assoc, lookup, insert, lookup-insert, ℤ, if◌then◌else◌,
  Bool-cases, arith,
}
use bazel_broker.Admission.Types.{Time}
use bazel_broker.Build.{Build, ApiBuild, to_api, Event}
use bazel_broker.Hub.{Subscriber, is_sub, has_room, deliver_all}
use bazel_broker.Registry.Reap.{is_missing, reap_build, reap_all, reaped}
use bazel_broker.Registry.Keyed.{IsKeyed, IsIndex}
use bazel_broker.Cli.Watch.{apply_event, apply_all}
use bazel_broker.Events.{buffer_of}

-- The client shows what the registry has: nothing, or the build as it stood at some instant.
abbrev pub Shows : Option ApiBuild → Option Build → Type 0
Shows none none = Unit {0}
Shows (some a) (some b) = (t : Time) × (a ≡ to_api b t)
Shows _ _ = ⊥

abbrev pub Mirrors : Assoc ApiBuild → Assoc Build → Type 0
Mirrors view builds = (id : GoString) → Shows (lookup id view) (lookup id builds)

pub apply_all-append :
    (state : Assoc ApiBuild) (evs more : List Event)
    → apply_all state (evs ++ more) ≡ apply_all (apply_all state evs) more
unfolding apply_all
apply_all-append state [] more = refl
apply_all-append state (ev ∷ evs) more = apply_all-append (apply_event state ev) evs more

pub insert-Mirrors :
    (k : GoString) (b : Build) (t : Time) (view : Assoc ApiBuild) (builds : Assoc Build)
    → Mirrors view builds
    → Mirrors (insert k (to_api b t) view) (insert k b builds)
insert-Mirrors k b t view builds h id = elim (Bool-cases (str_eq k id)) [
  | inl e ↦ rw (lookup-insert k id (to_api b t) view, lookup-insert k id b builds, e) (t, refl)
  | inr e ↦ rw (lookup-insert k id (to_api b t) view, lookup-insert k id b builds, e) (h id)
]

-- Several builds at once, as they stand at one instant.
unfoldable pub insert_all : Time → List Build → Assoc ApiBuild → Assoc ApiBuild
insert_all now [] view = view
insert_all now (b ∷ bs) view = insert_all now bs (insert b.invocation_id (to_api b now) view)

reap_build-id :
    (seen : ℤ → Bool) (now : Time) (b : Build)
    → (reap_build seen now b).invocation_id ≡ b.invocation_id
unfolding reap_build
reap_build-id seen now b = ground arith

-- What the loop of a reaping pass adds to the view at its first build.
reaped_first : (seen : ℤ → Bool) (now : Time) → Build → Assoc ApiBuild → Assoc ApiBuild
reaped_first seen now b view =
    if is_missing seen b
    then insert b.invocation_id (to_api (reap_build seen now b) now) view
    else view

insert_all-reaped :
    (seen : ℤ → Bool) (now : Time) (k : GoString) (b : Build) (m : Assoc Build)
    (view : Assoc ApiBuild)
    → insert_all now (reaped seen now ((k, b) ∷ m)) view
      ≡ insert_all now (reaped seen now m) (reaped_first seen now b view)
unfolding insert_all reaped reaped_first
insert_all-reaped seen now k b m view = elim (Bool-cases (is_missing seen b)) [
  | inl e ↦ rw (e, reap_build-id) refl
  | inr e ↦ rw e refl
]

lookup-reaped_first :
    (seen : ℤ → Bool) (now : Time) (id : GoString) (b : Build) (view : Assoc ApiBuild)
    → lookup id (reaped_first seen now b view) ≡ (
        if is_missing seen b && str_eq b.invocation_id id
        then some (to_api (reap_build seen now b) now)
        else lookup id view)
unfolding reaped_first
lookup-reaped_first seen now id b view =
    ground (arith, lookup-insert b.invocation_id id (to_api (reap_build seen now b) now) view)

lookup-reaped_first_other :
    (seen : ℤ → Bool) (now : Time) (id : GoString) (b : Build) (view : Assoc ApiBuild)
    → str_eq b.invocation_id id ≡ false
    → lookup id (reaped_first seen now b view) ≡ lookup id view
lookup-reaped_first_other seen now id b view h =
    ground (arith, lookup-reaped_first seen now id b view)

lookup-insert_all_absent :
    (seen : ℤ → Bool) (now : Time) (id : GoString) (m : Assoc Build) (view : Assoc ApiBuild)
    → IsKeyed m
    → lookup id m ≡ none
    → lookup id (insert_all now (reaped seen now m) view) ≡ lookup id view
unfolding lookup
lookup-insert_all_absent seen now id [] view h e = unfold insert_all reaped in refl
lookup-insert_all_absent seen now id ((k, b) ∷ m) view h e =
    ap (lookup id) (insert_all-reaped seen now k b m view)
    ∙ lookup-insert_all_absent seen now id m (reaped_first seen now b view) h.1 (ground arith)
    ∙ ground (
      arith,
      lookup-reaped_first seen now id b view,
      str_eq_iff k id,
      str_eq_iff b.invocation_id id,
    )

reap-Shows-here :
    (seen : ℤ → Bool) (now : Time) (k : GoString) (b : Build) (view : Assoc ApiBuild)
    → b.invocation_id ≡ k
    → Shows (lookup k view) (some b)
    → Shows (lookup k (reaped_first seen now b view)) (some (reap_build seen now b))
unfolding reap_build
reap-Shows-here seen now k b view same shown = elim (Bool-cases (is_missing seen b)) [
  | inl e ↦
      rw (lookup-reaped_first seen now k b view, e, (str_eq_iff b.invocation_id k).1 same)
        (now, refl)
  | inr e ↦ rw (lookup-reaped_first seen now k b view, e) shown
]

reap-Shows :
    (seen : ℤ → Bool) (now : Time) (id : GoString) (m : Assoc Build) (view : Assoc ApiBuild)
    → IsIndex m
    → Shows (lookup id view) (lookup id m)
    → Shows (lookup id (insert_all now (reaped seen now m) view)) (lookup id (reap_all seen now m))
unfolding lookup reap_all
reap-Shows seen now id [] view h k = unfold insert_all reaped in k
reap-Shows seen now id ((k, b) ∷ m) view h shown = elim (Bool-cases (str_eq k id)) [
  | inl e ↦
      rw (e, insert_all-reaped seen now k b m view)
        (rw
          (lookup-insert_all_absent seen now id m (reaped_first seen now b view) h.1.1
            (subst (λ x. lookup x m ≡ none) ((str_eq_iff k id).0 e) h.0.0))
          (reap-Shows-here seen now id b view (h.1.0 ∙ (str_eq_iff k id).0 e)
            (subst (λ x. Shows (lookup id view) (if x then some b else lookup id m)) e shown)))
  | inr e ↦
      rw (e, insert_all-reaped seen now k b m view)
        (reap-Shows seen now id m (reaped_first seen now b view) (h.0.1, h.1.1)
          (rw (lookup-reaped_first_other seen now id b view (ap (λ x. str_eq x id) h.1.0 ∙ e))
            (subst (λ x. Shows (lookup id view) (if x then some b else lookup id m)) e shown)))
]

pub reap-Mirrors :
    (seen : ℤ → Bool) (now : Time) (m : Assoc Build) (view : Assoc ApiBuild)
    → IsIndex m
    → Mirrors view m
    → Mirrors (insert_all now (reaped seen now m) view) (reap_all seen now m)
reap-Mirrors seen now m view h k id = reap-Shows seen now id m view h (k id)

-- The channel of a subscriber after a broadcast, if it is still there.
no_buffer : (n : ℕ) (subs : List Subscriber) → tally (is_sub n) subs ≡ 0 → buffer_of n subs ≡ none
unfolding buffer_of
no_buffer n [] h = refl
no_buffer n (s ∷ subs) h = ground (arith, no_buffer n subs)

pub buffer_of-deliver_all :
    (n : ℕ) (ev : Event) (subs : List Subscriber) (buf' : List Event)
    → tally (is_sub n) subs ≤ 1
    → buffer_of n (deliver_all ev subs).0 ≡ some buf'
    → (buf : List Event) × (buffer_of n subs ≡ some buf) × (buf' ≡ buf ++ ev ∷ [])
unfolding buffer_of deliver_all
buffer_of-deliver_all n ev [] buf' u h = absurd (cc)
buffer_of-deliver_all n ev (s ∷ subs) buf' u h = elim (Bool-cases (is_sub n s)) [
  | inl here ↦ elim (Bool-cases (has_room s)) [
    | inl room ↦ (s.buffer, ground arith, ground arith)
    | inr full ↦
        let (buf, was, same) = buffer_of-deliver_all n ev subs buf' (ground arith) (ground arith) in
        absurd (ground (arith, no_buffer n subs))
  ]
  | inr there ↦
      let (buf, was, same) = buffer_of-deliver_all n ev subs buf' (ground arith) (ground arith) in
      (buf, ground arith, same)
]
