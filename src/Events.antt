-- ===== src/Events.antt =====
-- internal/httpapi/events.go: `handleEvents`, one connection to the stream of events. The hub is the one
-- of the registry. `frames` is what was written to the client; a failed write, a failed ping and the end
-- of the request all leave the loop.
pub mod View
pub mod Snapshot
pub mod Sync
pub mod Missed
pub mod Reordered
mod Tests
use bazel_broker.Common.{
  ℕ, suc, Bool, true, false, Option, none, some, List, [], ◌∷◌, ◌++◌, if◌then◌else◌,
}
use bazel_broker.Admission.Types.{Time}
use bazel_broker.Build.{Event, event_snapshot, format_time}
use bazel_broker.Hub.{Subscriber, Hub, subscribe, is_sub, drop, read_next}
use bazel_broker.Registry.{Registry}
use bazel_broker.Registry.Reports.{snapshot_api}

pub record Connection : Type 0 where
  pub sub : ℕ
  pub seq : ℕ
  pub frames : List Event
  pub slow : Bool

-- The first frame, which is written before the subscription.
unfoldable pub snapshot_frame : Registry → Time → Event
snapshot_frame r now = record {
  type = event_snapshot;
  seq = 0;
  build = none;
  builds = snapshot_api r now;
  ts = format_time now;
  alert = none;
}

-- `hub.Subscribe`, after the first frame; a registry without a hub has no events.
unfoldable pub subscribe_client : Registry → Event → Registry × Connection
subscribe_client r first =
    let opened : Option (Hub × ℕ) = elim r.hub [ none ↦ none | some h ↦ some (subscribe h) ] in
    (
      record r { hub = elim opened [ none ↦ none | some (h, n) ↦ some h ] },
      record {
        sub = elim opened [ none ↦ 0 | some (h, n) ↦ n ];
        seq = 0;
        frames = first ∷ [];
        slow = false;
      },
    )

-- The start of `handleEvents` where nothing comes between the snapshot and the subscription.
unfoldable pub connect : Registry → Time → Registry × Connection
connect r now = subscribe_client r (snapshot_frame r now)

-- What the channel of a subscriber holds; `none` where it is not among them.
unfoldable pub buffer_of : ℕ → List Subscriber → Option (List Event)
buffer_of n [] = none
buffer_of n (s ∷ subs) = if is_sub n s then some s.buffer else buffer_of n subs

-- One event from the channel, written with the connection's own number.
unfoldable pub write_frame : Connection → Event → Connection
write_frame c ev = record c {
  seq = suc c.seq;
  frames = c.frames ++ record ev { seq = suc c.seq } ∷ [];
}

-- The end of a closed channel: what its buffer still holds is read first.
unfoldable pub receive_closed : Hub → Connection → Option (List Event) → Hub × Connection
receive_closed h c none = (h, record c { slow = true })
receive_closed h c (some []) = (h, record c { slow = true })
receive_closed h c (some (ev ∷ rest)) =
    (record h { dropped = read_next c.sub h.dropped }, write_frame c ev)

-- The case of the `select` on the channel: an event, or nothing yet, or a closed channel.
unfoldable pub receive_event : Hub → Connection → Option (List Event) → Hub × Connection
receive_event h c none = receive_closed h c (buffer_of c.sub h.dropped)
receive_event h c (some []) = (h, c)
receive_event h c (some (ev ∷ rest)) =
    (record h { subs = read_next c.sub h.subs }, write_frame c ev)

unfoldable pub pump_hub : Hub → Connection → Hub × Connection
pump_hub h c = receive_event h c (buffer_of c.sub h.subs)

unfoldable pub pump : Registry → Connection → Registry × Connection
pump r c = elim r.hub [
  | none ↦ (r, c)
  | some h ↦ let (h', c') = pump_hub h c in (record r { hub = some h' }, c')
]

-- The deferred `unsub`.
unfoldable pub disconnect : Registry → Connection → Registry
disconnect r c = record r { hub = elim r.hub [ none ↦ none | some h ↦ some (drop h c.sub) ] }
