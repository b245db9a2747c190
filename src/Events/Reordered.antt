-- ===== src/Events/Reordered.antt =====
-- Two mutations of one build whose events are sent in the other order: the registry unlocks its mutex before
-- it saves the row and broadcasts, so that the second mutation can overtake the first.
use bazel_broker.Common.{
  ◌≡◌, ◌≢◌, sym, ap, ◌∙◌, subst, Option, none, some, List, [], ◌∷◌, Assoc, GoString, lookup,
  lookup-insert, str_eq_refl, arith,
}
use bazel_broker.Admission.Types.{Time}
use bazel_broker.Build.{Build, ApiBuild, to_api, Event}
use bazel_broker.Hub.{Hub}
use bazel_broker.Registry.{Registry, publish, persist, broadcast_build, store_build}
use bazel_broker.Events.{Connection, buffer_of}
use bazel_broker.Events.View.{Shows, Mirrors, insert_all}
use bazel_broker.Events.Sync.{Tracks, IsSynced, Tracks-map, Tracks-at, publish-Tracks, view_after}

-- Both mutations have written under the mutex, `b` first and then `c`.
abbrev pub both_stored : Registry → GoString → (b c : Build) → Registry
both_stored r id b c = store_build (store_build r id b) id c

-- The second goes on first: the parts after the mutex are in the other order.
abbrev pub overtaken : Registry → GoString → (b c : Build) → (now later : Time) → Registry
overtaken r id b c now later = publish (publish (both_stored r id b c) c later) b now

-- The view shows the build as the event of `b` has it.
abbrev ShowsEvent : Build → Time → Assoc ApiBuild → Type 0
ShowsEvent b now v = lookup b.invocation_id v ≡ some (to_api b now)

event-shows :
    (b : Build) (now : Time) (v : Assoc ApiBuild) → ShowsEvent b now (insert_all now (b ∷ []) v)
unfolding insert_all to_api
event-shows b now v = ground (
  arith,
  lookup-insert b.invocation_id b.invocation_id (to_api b now) v,
  str_eq_refl b.invocation_id,
)

last_event :
    (r : Registry) (k : Connection) (b c : Build) (now later : Time)
    → Tracks k r.hub (λ v. Unit {0})
    → Tracks k (publish (publish r c later) b now).hub (ShowsEvent b now)
last_event r k b c now later t = publish-Tracks k (publish r c later) b now (ShowsEvent b now) (
    publish-Tracks k r c later (λ v. ShowsEvent b now (insert_all now (b ∷ []) v))
      (Tracks-map k r.hub (λ v. Unit {0}) _ (λ v u. event-shows b now (insert_all later (c ∷ []) v))
        t))

shown_state :
    (x : Option ApiBuild) (b c : Build) (now : Time)
    → x ≡ some (to_api b now)
    → Shows x (some c)
    → b.state ≡ c.state
unfolding to_api
shown_state none b c now e h = absurd (cc)
shown_state (some a) b c now e (t, h) = cc

overtaken-builds :
    (r : Registry) (id : GoString) (b c : Build) (now later : Time)
    → lookup id (overtaken r id b c now later).builds ≡ some c
unfolding persist broadcast_build
overtaken-builds r id b c now later =
    ground (arith, lookup-insert id id c (store_build r id b).builds, str_eq_refl id)

-- Two mutations store a build as `b` and then, in another state, as `c`, and the second broadcasts first. The
-- client was in step with the registry and the hub has not dropped it: once it has read all that waits for
-- it, its view is not that of the registry.
pub overtaken-stale :
    (r : Registry) (k : Connection) (id : GoString) (b c : Build) (now later : Time) (g : Hub)
    (buf : List Event)
    → IsSynced (r, k)
    → b.invocation_id ≡ id
    → b.state ≢ c.state
    → (overtaken r id b c now later).hub ≡ some g
    → buffer_of k.sub g.subs ≡ some buf
    → ¬ Mirrors (view_after k buf) (overtaken r id b c now later).builds
overtaken-stale r k id b c now later g buf synced named differ at_hub waiting mirrors =
    let v = view_after k buf in
    let start = Tracks-map k r.hub (λ x. Mirrors x r.builds) (λ x. Unit {0}) (λ x m. tt) synced.1 in
    let shown : ShowsEvent b now v =
      Tracks-at k (overtaken r id b c now later).hub g (ShowsEvent b now) buf
        (last_event (both_stored r id b c) k b c now later start) at_hub waiting in
    let as_stored : Shows (lookup id v) (some c) =
      subst (Shows (lookup id v)) (overtaken-builds r id b c now later) (mirrors id) in
    differ (shown_state (lookup id v) b c now (ap (λ i. lookup i v) (sym named) ∙ shown) as_stored)
