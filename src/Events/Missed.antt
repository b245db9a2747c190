-- ===== src/Events/Missed.antt =====
-- What happens between the snapshot of a connection and its subscription.
use mathlib.Core.Option.{some-injective}
use bazel_broker.Common.{
  ℕ, suc, ◌≤◌, ◌≡◌, refl, sym, ap, ◌∙◌, subst, inl, inr, true, false, Option, none, some, List, [],
  ◌∷◌, ◌++◌, All, GoString, is_empty, ℤ, is_zero, lookup, lookup-insert, str_eq_iff, Bool-cases,
  arith,
}
use bazel_broker.Admission.Types.{Time}
use bazel_broker.Build.{is_terminal, Build, ApiBuild, to_api, Event}
use bazel_broker.Hub.{Subscriber, Hub, subscribe, deliver_all, broadcast}
use bazel_broker.Registry.{
  Registry, publish, persist, broadcast_build, store_build, finish, deregister,
}
use bazel_broker.Registry.Keyed.{IsIndex}
use bazel_broker.Cli.Watch.{apply_all}
use bazel_broker.Events.{snapshot_frame, subscribe_client, buffer_of}
use bazel_broker.Events.View.{Shows, Mirrors}
use bazel_broker.Events.Snapshot.{snapshot-Mirrors}
use bazel_broker.Events.Sync.{view_after, IsFresh, buffer_of-last, fresh_tally}

deliver_all-IsFresh :
    (n : ℕ) (ev : Event) (subs : List Subscriber)
    → All (λ s. suc s.number ≤ n) subs
    → All (λ s. suc s.number ≤ n) (deliver_all ev subs).0
unfolding deliver_all
deliver_all-IsFresh n ev [] h = tt
deliver_all-IsFresh n ev (s ∷ subs) h = ground (arith, deliver_all-IsFresh n ev subs h.1)

subscribed :
    (first : Event) (r : Registry) (h g : Hub)
    → r.hub ≡ some h
    → IsFresh h
    → (subscribe_client r first).0.hub ≡ some g
    → buffer_of (subscribe_client r first).1.sub g.subs ≡ some []
unfolding subscribe_client subscribe
subscribed first r h g e fresh k =
    let last =
      buffer_of-last h.subs (record { number = h.next; buffer = []; closed = false }) h.next
        (fresh_tally h.next h.subs fresh) in
    let empty : buffer_of h.next
          (h.subs ++ record { number = h.next; buffer = []; closed = false } ∷ [])
        ≡ some [] =
      ground (arith, last.1) in
    let opened : (subscribe_client r first).0.hub ≡ some (subscribe h).0 = rw e refl in
    let same : (subscribe h).0 ≡ g = some-injective _ _ (sym opened ∙ k) in
    rw e (subst (λ (x : Hub). buffer_of h.next x.subs ≡ some []) same empty)

same_state :
    (x : Option ApiBuild) (b c : Build) → Shows x (some b) → Shows x (some c) → b.state ≡ c.state
unfolding to_api
same_state none b c h k = elim h [ ]
same_state (some a) b c (t, h) (u, k) = ap (λ (x : ApiBuild). x.state) (sym h ∙ k)

finish-is_terminal :
    (b : Build) (code : ℤ) (now : Time) → is_terminal (finish b code now).state ≡ true
unfolding finish is_terminal
finish-is_terminal b code now = elim (Bool-cases (is_zero code)) [
  | inl e ↦ rw e refl
  | inr e ↦ rw e refl
]

deregister-live :
    (r : Registry) (id : GoString) (code : ℤ) (now : Time) (b : Build)
    → is_empty id ≡ false
    → lookup id r.builds ≡ some b
    → is_terminal b.state ≡ false
    → (deregister r id code now).0
      ≡ publish (store_build r id (finish b code now)) (finish b code now) now
unfolding deregister
deregister-live r id code now b e f t = rw (e, f, t) refl

published :
    (r : Registry) (h : Hub) (id : GoString) (b : Build) (now : Time)
    → r.hub ≡ some h
    → IsFresh h
    → (k : Hub) × ((publish (store_build r id b) b now).hub ≡ some k) × IsFresh k
unfolding persist broadcast_build broadcast
published r h id b now e fresh = rw e (_, refl, deliver_all-IsFresh h.next _ h.subs fresh)

published-builds :
    (r : Registry) (id : GoString) (b : Build) (now : Time)
    → lookup id (publish (store_build r id b) b now).builds ≡ some b
unfolding persist broadcast_build
published-builds r id b now = ground (arith, lookup-insert id id b r.builds, str_eq_iff id id)

-- A build that ends between the snapshot of a new connection and its subscription: no event waits for the
-- client, and its view is not that of the registry.
pub missed_end :
    (r : Registry) (h g : Hub) (now t : Time) (id : GoString) (code : ℤ) (b : Build)
    → r.hub ≡ some h
    → IsFresh h
    → IsIndex r.builds
    → is_empty id ≡ false
    → lookup id r.builds ≡ some b
    → is_terminal b.state ≡ false
    → (subscribe_client (deregister r id code t).0 (snapshot_frame r now)).0.hub ≡ some g
    → (buffer_of (subscribe_client (deregister r id code t).0 (snapshot_frame r now)).1.sub g.subs
        ≡ some [])
      × ¬ Mirrors
          (view_after (subscribe_client (deregister r id code t).0 (snapshot_frame r now)).1 [])
          (deregister r id code t).0.builds
unfolding subscribe_client apply_all
missed_end r h g now t id code b e fresh index named stored live k =
    let ended = finish b code t in
    let s = (deregister r id code t).0 in
    let same : s ≡ publish (store_build r id ended) ended t =
      deregister-live r id code t b named stored live in
    let (h', e', fresh') = published r h id ended t e fresh in
    (
      subscribed (snapshot_frame r now) s h' g (ap (λ (x : Registry). x.hub) same ∙ e') fresh' k,
      λ mirrors.
          let x = lookup id (apply_all [] (snapshot_frame r now ∷ [])) in
          let before : Shows x (some b) =
            subst (Shows x) stored (snapshot-Mirrors r now index id) in
          let found : lookup id s.builds ≡ some ended =
            ap (λ (y : Registry). lookup id y.builds) same ∙ published-builds r id ended t in
          let after : Shows x (some ended) = subst (Shows x) found (mirrors id) in
          let now_live = same_state x b ended before after in
          absurd (ground (arith, ap is_terminal now_live, finish-is_terminal b code t)),
    )
