-- ===== src/Hub/Laws.antt =====
-- The buffers of the hub, and what a broadcast does to them.
use bazel_broker.Common.{
  ℕ, ◌+◌, ◌∙◌, Bool, tally, ◌≤◌, ◌≡◌, refl, ap, true, false, not, List, [], ◌∷◌, ◌++◌, length,
  length-append, keep, All, All-append, All-keep, arith,
}
use bazel_broker.Build.{Event}
use bazel_broker.Hub.{
  sub_buffer_size, Subscriber, Hub, subscribe, is_sub, close_all, drop, has_room, send, deliver_all,
  broadcast, read_next,
}

-- A live subscriber: its channel is open and its buffer is within its size.
abbrev pub IsLive : Subscriber → Type 0
IsLive s = (length s.buffer ≤ sub_buffer_size) × (s.closed ≡ false)

abbrev pub IsClosed : Subscriber → Type 0
IsClosed s = (length s.buffer ≤ sub_buffer_size) × (s.closed ≡ true)

-- How often a subscriber stands among the attached and the dropped.
abbrev pub copies : ℕ → Hub → ℕ
copies n h = tally (is_sub n) h.subs + tally (is_sub n) h.dropped

-- Live subscribers only are attached and closed ones only are dropped, each subscriber stands in one place
-- at most, and a number that is to be given out in none.
pub record IsValid (h : Hub) : Type 0 where
  pub live : All IsLive h.subs
  pub shut : All IsClosed h.dropped
  pub once : (n : ℕ) → copies n h ≤ 1
  pub unused : (n : ℕ) → h.next ≤ n → copies n h ≡ 0

deliver_all-IsLive :
    (ev : Event) (subs : List Subscriber)
    → All IsLive subs
    → All IsLive (deliver_all ev subs).0 × All IsClosed (deliver_all ev subs).1
unfolding deliver_all
deliver_all-IsLive ev [] h = (tt, tt)
deliver_all-IsLive ev (s ∷ subs) h =
    ground (arith, deliver_all-IsLive ev subs h.1, length-append {0} s.buffer (ev ∷ []))

close_all-IsClosed : (subs : List Subscriber) → All IsLive subs → All IsClosed (close_all subs)
close_all-IsClosed [] h = tt
close_all-IsClosed (s ∷ subs) h = ((h.0.0, refl), close_all-IsClosed subs h.1)

-- The buffer after a read.
shorter : (l : List Event) → length (elim l [ [] ↦ [] | ev ∷ rest ↦ rest ]) ≤ length l
shorter [] = omega arith
shorter (ev ∷ rest) = omega arith

-- A read keeps what holds of the closing and of a bound of the buffer.
read_next-Within :
    (shut : Bool) (n : ℕ) (subs : List Subscriber)
    → All (λ s. (length s.buffer ≤ sub_buffer_size) × (s.closed ≡ shut)) subs
    → All (λ s. (length s.buffer ≤ sub_buffer_size) × (s.closed ≡ shut)) (read_next n subs)
unfolding read_next
read_next-Within shut n [] h = tt
read_next-Within shut n (s ∷ subs) h =
    (ground (arith, shorter s.buffer), read_next-Within shut n subs h.1)

tally-snoc :
    (p : Subscriber → Bool) (xs ys : List Subscriber) → tally p (xs ++ ys) ≡ tally p xs + tally p ys
tally-snoc p [] ys = omega arith
tally-snoc p (x ∷ xs) ys = ground (arith, tally-snoc p xs ys)

tally-deliver_all :
    (n : ℕ) (ev : Event) (subs : List Subscriber)
    → tally (is_sub n) (deliver_all ev subs).0 + tally (is_sub n) (deliver_all ev subs).1
      ≡ tally (is_sub n) subs
unfolding deliver_all
tally-deliver_all n ev [] = refl
tally-deliver_all n ev (s ∷ subs) = ground (arith, tally-deliver_all n ev subs)

tally-read_next :
    (n m : ℕ) (subs : List Subscriber) → tally (is_sub n) (read_next m subs) ≡ tally (is_sub n) subs
unfolding read_next
tally-read_next n m [] = refl
tally-read_next n m (s ∷ subs) = ground (arith, tally-read_next n m subs)

-- A drop moves the subscribers of a number.
tally-drop :
    (n m : ℕ) (subs : List Subscriber)
    → tally (is_sub n) (keep (λ s. not (is_sub m s)) subs)
        + tally (is_sub n) (close_all (keep (is_sub m) subs))
      ≡ tally (is_sub n) subs
tally-drop n m [] = refl
tally-drop n m (s ∷ subs) = ground (arith, tally-drop n m subs)

pub data HubStep : Hub → Hub → Type 0 where
  subscribes : (h : Hub) → HubStep h (subscribe h).0
  unsubscribes : (h : Hub) (n : ℕ) → HubStep h (drop h n)
  broadcasts : (h : Hub) (ev : Event) → HubStep h (broadcast h ev)
  reads : (h : Hub) (n : ℕ) → HubStep h (record h { subs = read_next n h.subs })
  reads_closed : (h : Hub) (n : ℕ) → HubStep h (record h { dropped = read_next n h.dropped })

pub data HubReach (h : Hub) : Hub → Type 0 where
  here : HubReach h h
  next : {i j : Hub} → HubReach h i → HubStep i j → HubReach h j

-- A step that keeps the numbers keeps the counts within bounds.
keeps-IsValid :
    {h : Hub} (i : Hub)
    → IsValid h
    → All IsLive i.subs
    → All IsClosed i.dropped
    → ((n : ℕ) → copies n i ≡ copies n h)
    → i.next ≡ h.next
    → IsValid i
keeps-IsValid i v live shut same kept = record {
  live = live;
  shut = shut;
  once = λ n. omega (arith, v.once n, same n);
  unused = λ n m. same n ∙ v.unused n (omega (arith, m, kept));
}

subscribe-IsValid : (h : Hub) → IsValid h → IsValid (subscribe h).0
unfolding subscribe
subscribe-IsValid h v = record {
  live = All-append IsLive h.subs _ v.live ((omega arith, refl), tt);
  shut = v.shut;
  once = λ n. ground (arith, tally-snoc (is_sub n) h.subs (added ∷ []), v.once n, v.unused n);
  unused =
      λ n m. ground (arith, tally-snoc (is_sub n) h.subs (added ∷ []), v.unused n (omega arith));
}
  where
    added : Subscriber
    added = record { number = h.next; buffer = []; closed = false }

HubStep-IsValid : {h i : Hub} → HubStep h i → IsValid h → IsValid i
unfolding drop broadcast
HubStep-IsValid (subscribes h) v = subscribe-IsValid h v
HubStep-IsValid (unsubscribes h m) v =
    let going = close_all (keep (is_sub m) h.subs) in
    keeps-IsValid _ v (All-keep IsLive (λ s. not (is_sub m s)) h.subs v.live)
      (All-append IsClosed h.dropped _ v.shut
        (close_all-IsClosed (keep (is_sub m) h.subs) (All-keep IsLive (is_sub m) h.subs v.live)))
      (λ n. omega (arith, tally-snoc (is_sub n) h.dropped going, tally-drop n m h.subs)) refl
HubStep-IsValid (broadcasts h ev) v =
    let (stay, go) = deliver_all-IsLive ev h.subs v.live in
    keeps-IsValid _ v stay (All-append IsClosed h.dropped _ v.shut go)
      (λ n. omega (
        arith,
        tally-snoc (is_sub n) h.dropped (deliver_all ev h.subs).1,
        tally-deliver_all n ev h.subs,
      ))
      refl
HubStep-IsValid (reads h m) v =
    keeps-IsValid _ v (read_next-Within false m h.subs v.live) v.shut
      (λ n. omega (arith, tally-read_next n m h.subs)) refl
HubStep-IsValid (reads_closed h m) v =
    keeps-IsValid _ v v.live (read_next-Within true m h.dropped v.shut)
      (λ n. omega (arith, tally-read_next n m h.dropped)) refl

-- Whatever clients subscribe, read, leave or fall behind, from a valid hub on: the channel of every
-- attached subscriber is open, that of every dropped one is closed, no subscriber is attached twice,
-- dropped twice or both, and no buffer, attached or dropped, holds more events than its size.
pub HubReach-IsValid : {h i : Hub} → HubReach h i → IsValid h → IsValid i
HubReach-IsValid here v = v
HubReach-IsValid (next r s) v = HubStep-IsValid s (HubReach-IsValid r v)

-- The subscribers with room, each with the event at the end of its buffer.
abbrev pub sent : Event → List Subscriber → List Subscriber
sent ev [] = []
sent ev (s ∷ subs) = send ev s ∷ sent ev subs

deliver_all_lem :
    (ev : Event) (subs : List Subscriber)
    → ((deliver_all ev subs).0 ≡ sent ev (keep has_room subs))
      × ((deliver_all ev subs).1 ≡ close_all (keep (λ s. not (has_room s)) subs))
unfolding deliver_all
deliver_all_lem ev [] = (refl, refl)
deliver_all_lem ev (s ∷ subs) = ground (arith, deliver_all_lem ev subs)

-- A broadcast appends the event to the buffer of every subscriber with room, in the order in which they
-- stand, and closes and drops exactly those whose buffer is full; none waits.
broadcast_lem :
    (h : Hub) (ev : Event)
    → ((broadcast h ev).subs ≡ sent ev (keep has_room h.subs))
      × ((broadcast h ev).dropped ≡ h.dropped ++ close_all (keep (λ s. not (has_room s)) h.subs))
unfolding broadcast
broadcast_lem h ev = let (stay, go) = deliver_all_lem ev h.subs in (stay, ap (◌++◌ h.dropped) go)
