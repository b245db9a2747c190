-- ===== src/Admission/Engine/Heap.antt =====
-- The invariant that ties together the queue, the map of ids, the waiters and the semaphore's slots,
-- and the changes that keep it.
use bazel_broker.Common.{
  suc, ◌<◌, ◌≡◌, refl, Bool, true, false, ◌||◌, none, some, List, [], ◌∷◌, ◌++◌, any, GoString,
  str_eq_iff, Assoc, lookup, insert, delete, lookup-insert, lookup-delete, ◌==◌, arith,
}
use bazel_broker.Admission.Semaphore.{Semaphore, sem_try, sem_acquire, sem_release}
use bazel_broker.Admission.Semaphore.Laws.{
  Bounded, holds, sem_acquire-Bounded, sem_release-Bounded, holds-sem_acquire, holds-sem_release,
}
use bazel_broker.Admission.Engine.{
  Engine, Addr, Waiter, WaiterState, ws_queued, ws_admitted, ws_done, write,
}

abbrev pub is_admitted : WaiterState → Bool
is_admitted ws_queued = false
is_admitted ws_admitted = true
is_admitted ws_done = false

abbrev pub in_line : Addr → List Addr → Bool
in_line a line = any (λ b. b == a) line

-- Whether the id is that of a waiter that has been admitted and not released.
abbrev pub owner_admitted : Assoc Addr → (Addr → Waiter) → GoString → Bool
owner_admitted by_id heap id = elim (lookup id by_id) [
  | none ↦ false
  | some a ↦ is_admitted (heap a).state
]

-- `line` stands for the queue, which `schedule` takes apart as it goes. A slot is held for exactly the
-- admitted ids, the queue holds every waiter that is queued, and a queued waiter is known by its id.
pub record Inv (line : List Addr) (sem : Semaphore) (by_id : Assoc Addr) (heap : Addr → Waiter)
    (next : Addr) : Type 0 where
  pub slots_bounded : Bounded sem
  pub slots : (id : GoString) → holds sem id ≡ owner_admitted by_id heap id
  pub known_fresh : (id : GoString) (a : Addr) → lookup id by_id ≡ some a → a < next
  pub known_named :
      (id : GoString) (a : Addr) → lookup id by_id ≡ some a → (heap a).req.invocation_id ≡ id
  pub known_queued :
      (id : GoString) (a : Addr)
      → lookup id by_id ≡ some a
      → (heap a).state ≡ ws_queued
      → in_line a line ≡ true
  pub line_fresh : (a : Addr) → in_line a line ≡ true → a < next
  pub line_known :
      (a : Addr)
      → in_line a line ≡ true
      → (heap a).state ≡ ws_queued
      → lookup (heap a).req.invocation_id by_id ≡ some a

abbrev pub InvOf : List Addr → Engine → Type 0
InvOf line e = Inv line e.sem e.by_id e.heap e.next

abbrev pub IsValid : Engine → Type 0
IsValid e = InvOf e.line e

pub in_line-append :
    (b : Addr) (xs ys : List Addr) → in_line b (xs ++ ys) ≡ (in_line b xs || in_line b ys)
in_line-append b [] ys = refl
in_line-append b (x ∷ xs) ys = ground (arith, in_line-append b xs ys)

module _ {line : List Addr} {sem : Semaphore} {by_id : Assoc Addr} {heap : Addr → Waiter}
    {next : Addr} (v : Inv line sem by_id heap next) where
  -- A shorter queue that misses no queued waiter.
  pub shorten-Inv :
      (line' : List Addr)
      → ((b : Addr) → in_line b line' ≡ true → in_line b line ≡ true)
      → ((b : Addr) → in_line b line ≡ true → (heap b).state ≡ ws_queued → in_line b line' ≡ true)
      → Inv line' sem by_id heap next
  shorten-Inv line' sub sup = record {
    slots_bounded = v.slots_bounded;
    slots = v.slots;
    known_fresh = v.known_fresh;
    known_named = v.known_named;
    known_queued = λ id b k q. sup b (v.known_queued id b k q) q;
    line_fresh = λ b m. v.line_fresh b (sub b m);
    line_known = λ b m q. v.line_known b (sub b m) q;
  }

  module _ (a : Addr) (w : Waiter) where
    -- A write that leaves the waiter's id and state.
    pub touch-Inv :
        w.req.invocation_id ≡ (heap a).req.invocation_id
        → w.state ≡ (heap a).state
        → Inv line sem by_id (write heap a w) next
    unfolding write
    touch-Inv named same = record {
      slots_bounded = v.slots_bounded;
      slots = λ id. ground (arith, v.slots id);
      known_fresh = v.known_fresh;
      known_named = λ id b k. ground (arith, v.known_named id b k);
      known_queued = λ id b k q. ground (arith, v.known_queued id b k);
      line_fresh = v.line_fresh;
      line_known = λ b m q. ground (arith, v.line_known b m);
    }

    -- A queued waiter is given up.
    pub drop-Inv :
        in_line a line ≡ true
        → (heap a).state ≡ ws_queued
        → w.state ≡ ws_done
        → Inv line sem (delete (heap a).req.invocation_id by_id) (write heap a w) next
    unfolding write
    drop-Inv m queued finished =
        let name = (heap a).req.invocation_id in
        record {
          slots_bounded = v.slots_bounded;
          slots = λ id. ground (
            arith,
            v.slots id,
            v.known_named id,
            v.line_known a m queued,
            lookup-delete name id by_id,
            str_eq_iff name id,
          );
          known_fresh = λ id b k. ground (arith, v.known_fresh id b, lookup-delete name id by_id);
          known_named = λ id b k.
              ground (arith, v.known_named id b, lookup-delete name id by_id, str_eq_iff name id);
          known_queued = λ id b k q.
              ground (arith, v.known_queued id b, lookup-delete name id by_id, str_eq_iff name id);
          line_fresh = v.line_fresh;
          line_known = λ b n q.
              let other = (heap b).req.invocation_id in
              ground (
                arith,
                v.line_known b n,
                v.line_known a m queued,
                lookup-delete name other by_id,
                str_eq_iff name other,
              );
        }

    -- A queued waiter is admitted and takes its slot.
    pub admit-Inv :
        in_line a line ≡ true
        → (heap a).state ≡ ws_queued
        → w.state ≡ ws_admitted
        → w.req.invocation_id ≡ (heap a).req.invocation_id
        → (sem_try sem (heap a).req).0 ≡ true
        → Inv line (sem_acquire sem (heap a).req) by_id (write heap a w) next
    unfolding write
    admit-Inv m queued admitted named free =
        let name = (heap a).req.invocation_id in
        record {
          slots_bounded = sem_acquire-Bounded sem (heap a).req v.slots_bounded free;
          slots = λ id. ground (
            arith,
            v.slots id,
            v.known_named id a,
            v.line_known a m queued,
            holds-sem_acquire sem (heap a).req id,
            str_eq_iff name id,
          );
          known_fresh = v.known_fresh;
          known_named = λ id b k. ground (arith, v.known_named id b k);
          known_queued = λ id b k q. ground (arith, v.known_queued id b k);
          line_fresh = v.line_fresh;
          line_known = λ b n q. ground (arith, v.line_known b n);
        }

    -- An id is released: its waiter is finished and its slot is free.
    pub release-Inv :
        (id : GoString)
        → lookup id by_id ≡ some a
        → w.state ≡ ws_done
        → Inv line (sem_release sem id) (delete id by_id) (write heap a w) next
    unfolding write
    release-Inv id known finished = record {
      slots_bounded = sem_release-Bounded sem id v.slots_bounded;
      slots = λ j. ground (
        arith,
        v.slots j,
        v.known_named j a,
        v.known_named id a known,
        holds-sem_release sem id j,
        lookup-delete id j by_id,
        str_eq_iff id j,
      );
      known_fresh =
          λ j b k. ground (arith, v.known_fresh j b, lookup-delete id j by_id, str_eq_iff id j);
      known_named = λ j b k. ground (
        arith,
        v.known_named j b,
        v.known_named id a known,
        lookup-delete id j by_id,
        str_eq_iff id j,
      );
      known_queued =
          λ j b k q. ground (arith, v.known_queued j b, lookup-delete id j by_id, str_eq_iff id j);
      line_fresh = v.line_fresh;
      line_known = λ b n q.
          let other = (heap b).req.invocation_id in
          ground (arith, v.line_known b n, lookup-delete id other by_id, str_eq_iff id other);
    }

    -- A new waiter joins the end of the queue.
    pub join-Inv :
        (id : GoString)
        → a ≡ next
        → lookup id by_id ≡ none
        → w.state ≡ ws_queued
        → w.req.invocation_id ≡ id
        → Inv (line ++ a ∷ []) sem (insert id a by_id) (write heap a w) (suc next)
    unfolding write
    join-Inv id fresh unknown queued named = record {
      slots_bounded = v.slots_bounded;
      slots = λ j.
          ground (arith, v.slots j, v.known_fresh j a, lookup-insert id j a by_id, str_eq_iff id j);
      known_fresh =
          λ j b k. ground (arith, v.known_fresh j b, lookup-insert id j a by_id, str_eq_iff id j);
      known_named = λ j b k. ground (
        arith,
        v.known_named j b,
        v.known_fresh j b,
        lookup-insert id j a by_id,
        str_eq_iff id j,
      );
      known_queued = λ j b k q. ground (
        arith,
        v.known_queued j b,
        in_line-append b line (a ∷ []),
        lookup-insert id j a by_id,
        str_eq_iff id j,
      );
      line_fresh = λ b n. ground (arith, v.line_fresh b, in_line-append b line (a ∷ []));
      line_known = λ b n q.
          let other = (heap b).req.invocation_id in
          ground (
            arith,
            v.line_known b,
            v.line_fresh b,
            in_line-append b line (a ∷ []),
            lookup-insert id other a by_id,
            lookup-insert id id a by_id,
            str_eq_iff id other,
            str_eq_iff id id,
          );
    }

  -- A release of an id that is not known changes no slot that is owned.
  pub release_unknown-Inv :
      (id : GoString) → lookup id by_id ≡ none → Inv line (sem_release sem id) by_id heap next
  release_unknown-Inv id unknown = record {
    slots_bounded = sem_release-Bounded sem id v.slots_bounded;
    slots = λ j. ground (arith, v.slots j, holds-sem_release sem id j, str_eq_iff id j);
    known_fresh = v.known_fresh;
    known_named = v.known_named;
    known_queued = v.known_queued;
    line_fresh = v.line_fresh;
    line_known = v.line_known;
  }
