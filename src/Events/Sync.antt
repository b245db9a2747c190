-- ===== src/Events/Sync.antt =====
-- A connection among the mutations of the registry: what its client sees, with what its channel holds.
use mathlib.Core.Option.{some-injective}
use bazel_broker.Common.{
  ℕ, suc, ◌≤◌, ◌≡◌, refl, sym, ap, ◌∙◌, subst, true, false, Option, none, some, List, [], ◌∷◌, ◌++◌,
  tally, All, Assoc, insert, if◌then◌else◌, arith,
}
use bazel_broker.Admission.Types.{Time}
use bazel_broker.Build.{Build, ApiBuild, to_api, Event}
use bazel_broker.Hub.{Subscriber, Hub, subscribe, is_sub, deliver_all, broadcast, read_next}
use bazel_broker.Registry.{Registry, publish, persist, broadcast_build, store_build}
use bazel_broker.Registry.Reap.{reap_all, reaped, publish_all, reap_missing_discovered}
use bazel_broker.Registry.Lifecycle.{Change, change, builds-publish_all}
use bazel_broker.Registry.Keyed.{
  IsIndex, Mutates, stays, stores, reaping, change-Mutates, Mutates-IsIndex,
}
use bazel_broker.Cli.Watch.{apply_event, apply_all}
use bazel_broker.Events.{
  Connection, snapshot_frame, subscribe_client, connect, buffer_of, write_frame, receive_closed,
  receive_event, pump_hub, pump,
}
use bazel_broker.Events.View.{
  Mirrors, apply_all-append, insert-Mirrors, insert_all, reap-Mirrors, buffer_of-deliver_all,
}
use bazel_broker.Events.Snapshot.{snapshot-Mirrors}

-- What happens while a client is connected: a whole mutation of the registry, with the sending of its
-- event, or the loop takes an event.
pub data Move : Type 0 where
  mutates : Change → Move
  pumps : Move

unfoldable pub move : Registry × Connection → Move → Registry × Connection
move (r, c) (mutates m) = (change r m, c)
move (r, c) pumps = pump r c

unfoldable pub moves : Registry × Connection → List Move → Registry × Connection
moves s [] = s
moves s (m ∷ ms) = moves (move s m) ms

-- The view of the client once it has read all that its channel holds.
abbrev pub view_after : Connection → List Event → Assoc ApiBuild
view_after c buf = apply_all (apply_all [] c.frames) buf

-- The connection has at most one channel, and what is read from it leads to a view with the property.
abbrev pub Tracks : Connection → Option Hub → (Assoc ApiBuild → Type 0) → Type 0
Tracks c none Q = Unit {0}
Tracks c (some h) Q =
    (tally (is_sub c.sub) h.subs ≤ 1)
    × ((buf : List Event) → buffer_of c.sub h.subs ≡ some buf → Q (view_after c buf))

tally-deliver_all :
    (n : ℕ) (ev : Event) (subs : List Subscriber)
    → tally (is_sub n) (deliver_all ev subs).0 ≤ tally (is_sub n) subs
unfolding deliver_all
tally-deliver_all n ev [] = omega arith
tally-deliver_all n ev (s ∷ subs) = ground (arith, tally-deliver_all n ev subs)

broadcast-Tracks :
    (c : Connection) (hub : Option Hub) (ev : Event) (Q : Assoc ApiBuild → Type 0)
    → Tracks c hub (λ v. Q (apply_event v ev))
    → Tracks c (elim hub [ none ↦ none | some h ↦ some (broadcast h ev) ]) Q
unfolding broadcast apply_all
broadcast-Tracks c none ev Q t = tt
broadcast-Tracks c (some h) ev Q (one, each) = (
  omega (arith, tally-deliver_all c.sub ev h.subs),
  λ buf' e.
      let (buf, was, same) = buffer_of-deliver_all c.sub ev h.subs buf' one e in
      subst (λ l. Q (view_after c l)) (sym same)
        (subst Q (sym (apply_all-append (apply_all [] c.frames) buf (ev ∷ []))) (each buf was)),
)

pub publish-Tracks :
    (c : Connection) (r : Registry) (b : Build) (now : Time) (Q : Assoc ApiBuild → Type 0)
    → Tracks c r.hub (λ v. Q (insert_all now (b ∷ []) v))
    → Tracks c (publish r b now).hub Q
unfolding persist broadcast_build insert_all apply_event to_api
publish-Tracks c r b now Q t = broadcast-Tracks c r.hub _ Q t

publish_all-Tracks :
    (c : Connection) (r : Registry) (bs : List Build) (now : Time) (Q : Assoc ApiBuild → Type 0)
    → Tracks c r.hub (λ v. Q (insert_all now bs v))
    → Tracks c (publish_all r bs now).hub Q
unfolding publish_all insert_all
publish_all-Tracks c r [] now Q t = t
publish_all-Tracks c r (b ∷ bs) now Q t =
    publish_all-Tracks c (publish r b now) bs now Q
      (publish-Tracks c r b now (λ v. Q (insert_all now bs v)) (unfold insert_all in t))

pub Tracks-map :
    (c : Connection) (hub : Option Hub) (P Q : Assoc ApiBuild → Type 0)
    → ((v : Assoc ApiBuild) → P v → Q v)
    → Tracks c hub P
    → Tracks c hub Q
Tracks-map c none P Q f t = tt
Tracks-map c (some h) P Q f (one, each) = (one, λ buf k. f (view_after c buf) (each buf k))

-- The builds stand under their ids, and the client is in step with them.
abbrev pub IsSynced : Registry × Connection → Type 0
IsSynced (r, c) = IsIndex r.builds × Tracks c r.hub (λ v. Mirrors v r.builds)

Mutates-IsSynced :
    {r s : Registry} (c : Connection) → Mutates r s → IsSynced (r, c) → IsSynced (s, c)
unfolding reap_missing_discovered insert_all broadcast_build insert persist
Mutates-IsSynced c stays h = h
Mutates-IsSynced {r} c (stores k b now e) (index, t) =
    let step : Mutates r (publish (store_build r k b) b now) = stores k b now e in
    (
      Mutates-IsIndex step index,
      publish-Tracks c (store_build r k b) b now (λ v. Mirrors v (insert k b r.builds))
          (Tracks-map c r.hub (λ v. Mirrors v r.builds) _
            (λ v m.
              subst (λ x. Mirrors (insert x (to_api b now) v) (insert k b r.builds)) (sym e)
                (insert-Mirrors k b now v r.builds m))
            t),
    )
Mutates-IsSynced {r} c (reaping seen now) (index, t) =
    let step : Mutates r (reap_missing_discovered r seen now) = reaping seen now in
    let after = record r { builds = reap_all seen now r.builds } in
    (
      Mutates-IsIndex step index,
      rw (builds-publish_all after (reaped seen now r.builds) now) (
          publish_all-Tracks c after (reaped seen now r.builds) now
            (λ v. Mirrors v (reap_all seen now r.builds))
            (Tracks-map c r.hub (λ v. Mirrors v r.builds) _
              (λ v m. reap-Mirrors seen now r.builds v index m) t)),
    )

buffer_of-read_next :
    (n : ℕ) (ev : Event) (rest : List Event) (subs : List Subscriber)
    → buffer_of n subs ≡ some (ev ∷ rest)
    → buffer_of n (read_next n subs) ≡ some rest
unfolding buffer_of read_next
buffer_of-read_next n ev rest [] h = absurd (cc)
buffer_of-read_next n ev rest (s ∷ subs) h = ground (arith, buffer_of-read_next n ev rest subs)

tally-read_next :
    (n m : ℕ) (subs : List Subscriber) → tally (is_sub n) (read_next m subs) ≡ tally (is_sub n) subs
unfolding read_next
tally-read_next n m [] = refl
tally-read_next n m (s ∷ subs) = ground (arith, tally-read_next n m subs)

view-write_frame :
    (c : Connection) (ev : Event) (rest : List Event)
    → view_after (write_frame c ev) rest ≡ view_after c (ev ∷ rest)
unfolding write_frame apply_all apply_event
view-write_frame c ev rest =
    ap (λ v. apply_all v rest) (apply_all-append [] c.frames (record ev { seq = suc c.seq } ∷ []))

no_channel :
    (h g : Hub) (c d : Connection) (Q : Assoc ApiBuild → Type 0)
    → d.sub ≡ c.sub
    → g.subs ≡ h.subs
    → buffer_of c.sub h.subs ≡ none
    → Tracks c (some h) Q
    → Tracks d (some g) Q
no_channel h g c d Q e f n (one, each) = (rw (e, f) one, λ buf k. absurd (ground arith))

receive_closed-Tracks :
    (h : Hub) (c : Connection) (Q : Assoc ApiBuild → Type 0) (left : Option (List Event))
    → buffer_of c.sub h.subs ≡ none
    → Tracks c (some h) Q
    → Tracks (receive_closed h c left).1 (some (receive_closed h c left).0) Q
unfolding receive_closed write_frame
receive_closed-Tracks h c Q none n t = t
receive_closed-Tracks h c Q (some []) n t =
    no_channel h h c (record c { slow = true }) Q refl refl n t
receive_closed-Tracks h c Q (some (ev ∷ rest)) n t =
    no_channel h (record h { dropped = read_next c.sub h.dropped }) c (write_frame c ev) Q refl refl
      n t

receive_event-Tracks :
    (h : Hub) (c : Connection) (Q : Assoc ApiBuild → Type 0) (left : Option (List Event))
    → buffer_of c.sub h.subs ≡ left
    → Tracks c (some h) Q
    → Tracks (receive_event h c left).1 (some (receive_event h c left).0) Q
unfolding receive_event write_frame
receive_event-Tracks h c Q none n t = receive_closed-Tracks h c Q (buffer_of c.sub h.dropped) n t
receive_event-Tracks h c Q (some []) e t = t
receive_event-Tracks h c Q (some (ev ∷ rest)) e (one, each) = (
  rw (tally-read_next c.sub c.sub h.subs) one,
  λ buf k.
      let same : rest ≡ buf =
        some-injective _ _ (sym (buffer_of-read_next c.sub ev rest h.subs e) ∙ k) in
      subst (λ l. Q (view_after (write_frame c ev) l)) same
        (subst Q (sym (view-write_frame c ev rest)) (each (ev ∷ rest) e)),
)

pump-Tracks :
    (r : Registry) (c : Connection) (hub : Option Hub) (Q : Assoc ApiBuild → Type 0)
    → r.hub ≡ hub
    → Tracks c hub Q
    → Tracks (pump r c).1 (pump r c).0.hub Q
unfolding pump pump_hub
pump-Tracks r c none Q e t = rw e tt
pump-Tracks r c (some h) Q e t = rw e (receive_event-Tracks h c Q (buffer_of c.sub h.subs) refl t)

pump-builds : (r : Registry) (c : Connection) → (pump r c).0.builds ≡ r.builds
unfolding pump
pump-builds r c = ground arith

move-IsSynced :
    (r : Registry) (c : Connection) (m : Move) → IsSynced (r, c) → IsSynced (move (r, c) m)
unfolding move
move-IsSynced r c (mutates m) h = Mutates-IsSynced c (change-Mutates r m h.0.1) h
move-IsSynced r c pumps h =
    rw (pump-builds r c) (h.0, pump-Tracks r c r.hub (λ v. Mirrors v r.builds) refl h.1)

pub moves-IsSynced :
    (s : Registry × Connection) (ms : List Move) → IsSynced s → IsSynced (moves s ms)
unfolding moves
moves-IsSynced s [] h = h
moves-IsSynced (r, c) (m ∷ ms) h = moves-IsSynced (move (r, c) m) ms (move-IsSynced r c m h)

-- The numbers of the subscribers are below the next one to give out.
abbrev pub IsFresh : Hub → Type 0
IsFresh h = All (λ s. suc s.number ≤ h.next) h.subs

pub fresh_tally :
    (next : ℕ) (subs : List Subscriber)
    → All (λ s. suc s.number ≤ next) subs
    → tally (is_sub next) subs ≡ 0
fresh_tally next [] h = refl
fresh_tally next (s ∷ subs) h = ground (arith, fresh_tally next subs)

pub buffer_of-last :
    (subs : List Subscriber) (s : Subscriber) (n : ℕ)
    → tally (is_sub n) subs ≡ 0
    → (tally (is_sub n) (subs ++ s ∷ []) ≤ 1)
      × (buffer_of n (subs ++ s ∷ []) ≡ (if is_sub n s then some s.buffer else none))
unfolding buffer_of
buffer_of-last [] s n h = (ground arith, refl)
buffer_of-last (t ∷ subs) s n h =
    (ground (arith, buffer_of-last subs s n), ground (arith, buffer_of-last subs s n))

connect-Tracks :
    (first : Event) (r : Registry) (h : Hub) (Q : Assoc ApiBuild → Type 0)
    → r.hub ≡ some h
    → IsFresh h
    → Q (apply_all [] (first ∷ []))
    → Tracks (subscribe_client r first).1 (subscribe_client r first).0.hub Q
unfolding subscribe_client subscribe apply_all
connect-Tracks first r h Q e fresh q =
    let last =
      buffer_of-last h.subs (record { number = h.next; buffer = []; closed = false }) h.next
        (fresh_tally h.next h.subs fresh) in
    let empty : buffer_of h.next
          (h.subs ++ record { number = h.next; buffer = []; closed = false } ∷ [])
        ≡ some [] =
      ground (arith, last.1) in
    rw e (
      last.0,
      λ buf k.
          subst (λ l. Q (apply_all (apply_all [] (first ∷ [])) l))
            (some-injective [] buf (sym empty ∙ k)) q,
    )

-- A new connection, with nothing between its snapshot and its subscription.
pub connect-IsSynced :
    (r : Registry) (h : Hub) (now : Time)
    → r.hub ≡ some h
    → IsFresh h
    → IsIndex r.builds
    → IsSynced (connect r now)
unfolding connect subscribe_client
connect-IsSynced r h now e fresh index = (
  index,
  connect-Tracks (snapshot_frame r now) r h (λ v. Mirrors v r.builds) e fresh
      (snapshot-Mirrors r now index),
)

pub Tracks-at :
    (c : Connection) (hub : Option Hub) (g : Hub) (Q : Assoc ApiBuild → Type 0) (buf : List Event)
    → Tracks c hub Q
    → hub ≡ some g
    → buffer_of c.sub g.subs ≡ some buf
    → Q (view_after c buf)
Tracks-at c hub g Q buf t e k = (subst (λ o. Tracks c o Q) e t).1 buf k

-- The client of a connection whose snapshot and subscription had nothing between them, whatever registers,
-- deregisters, discoveries and reaping passes follow, in any order with its own reads, but the mutations
-- one after another, each with its event sent before the next begins: as long as the hub has not dropped it, the frames that it has read and the events that wait for it lead `watch` to a
-- view with exactly the builds of the registry, each as the registry has it but for the instant at which
-- the elapsed time was taken. The subscribers' numbers are below the hub's next one, and every build
-- stands under its id, once.
pub client-Mirrors :
    (r : Registry) (h g : Hub) (now : Time) (ms : List Move) (buf : List Event)
    → r.hub ≡ some h
    → IsFresh h
    → IsIndex r.builds
    → (moves (connect r now) ms).0.hub ≡ some g
    → buffer_of (moves (connect r now) ms).1.sub g.subs ≡ some buf
    → Mirrors (view_after (moves (connect r now) ms).1 buf) (moves (connect r now) ms).0.builds
client-Mirrors r h g now ms buf e fresh index f k =
    let start = connect-IsSynced r h now e fresh index in
    let (end_index, tracks) = moves-IsSynced (connect r now) ms start in
    Tracks-at (moves (connect r now) ms).1 (moves (connect r now) ms).0.hub g
      (λ v. Mirrors v (moves (connect r now) ms).0.builds) buf tracks f k
