-- ===== src/Hub.antt =====
-- internal/registry/hub.go: the fan-out of events to subscribers, each with a buffer of its own. The map
-- of subscribers is a list, in which each stands once under its number; `dropped` keeps those whose
-- channel was closed, with what their buffers still hold.
pub mod Laws
mod Tests
use bazel_broker.Common.{
  ℕ, suc, Bool, true, false, not, List, [], ◌∷◌, ◌++◌, length, keep, ltb, ◌==◌, if◌then◌else◌,
}
use bazel_broker.Build.{Event}

-- `subBufferSize`.
abbrev pub sub_buffer_size : ℕ
sub_buffer_size = 64

pub record Subscriber : Type 0 where
  pub number : ℕ
  pub buffer : List Event
  pub closed : Bool

pub record Hub : Type 0 where
  pub subs : List Subscriber
  pub dropped : List Subscriber
  pub next : ℕ

-- `NewHub`.
unfoldable pub new_hub : Hub
new_hub = record { subs = []; dropped = []; next = 0 }

-- `Subscribe`: the hub and the number of the new subscriber.
unfoldable pub subscribe : Hub → Hub × ℕ
subscribe h = (
  record h {
    subs = h.subs ++ record { number = h.next; buffer = []; closed = false } ∷ [];
    next = suc h.next;
  },
  h.next,
)

abbrev pub close : Subscriber → Subscriber
close s = record s { closed = true }

abbrev pub is_sub : ℕ → Subscriber → Bool
is_sub n s = s.number == n

abbrev pub close_all : List Subscriber → List Subscriber
close_all [] = []
close_all (s ∷ subs) = close s ∷ close_all subs

-- `drop`, of the subscriber with that number.
unfoldable pub drop : Hub → ℕ → Hub
drop h n = record h {
  subs = keep (λ s. not (is_sub n s)) h.subs;
  dropped = h.dropped ++ close_all (keep (is_sub n) h.subs);
}

abbrev pub has_room : Subscriber → Bool
has_room s = ltb (length s.buffer) sub_buffer_size

abbrev pub send : Event → Subscriber → Subscriber
send ev s = record s { buffer = s.buffer ++ ev ∷ [] }

-- The loop of `Broadcast`: who stays, with the event in its buffer, and who is dropped.
unfoldable pub deliver_all : Event → List Subscriber → List Subscriber × List Subscriber
deliver_all ev [] = ([], [])
deliver_all ev (s ∷ subs) =
    let (stay, go) = deliver_all ev subs in
    if has_room s then (send ev s ∷ stay, go) else (stay, close s ∷ go)

unfoldable pub broadcast : Hub → Event → Hub
broadcast h ev =
    let (stay, go) = deliver_all ev h.subs in record h { subs = stay; dropped = h.dropped ++ go }

-- A client reads the oldest event of its buffer.
unfoldable pub read_next : ℕ → List Subscriber → List Subscriber
read_next n [] = []
read_next n (s ∷ subs) =
    (if is_sub n s then record s { buffer = elim s.buffer [ [] ↦ [] | ev ∷ rest ↦ rest ] } else s)
    ∷ read_next n subs

-- `SubscriberCount`.
unfoldable pub subscriber_count : Hub → ℕ
subscriber_count h = length h.subs
