-- ===== src/Registry/Upsert/ById.antt =====
-- An upsert of a build that has an id and no pid, as the event streams make it.
use bazel_broker.Common.{
  ◌≡◌, refl, true, false, none, some, is_empty, str_eq_iff, Assoc, lookup, lookup-insert, is_zero,
  arith,
}
use bazel_broker.Admission.Types.{Time}
use bazel_broker.Build.{
  State, queued, running, finished, failed, killed, gone, unknown, unset, other, is_terminal, Build,
}
use bazel_broker.Registry.{Registry, persist, broadcast_build}
use bazel_broker.Registry.Upsert.{
  upsert_target, upsert_merge, upsert, is_running_or_unset, discovered_build,
}

-- The key of an upsert by id only.
upsert_target-key :
    (m : Assoc Build) (b : Build) (now : Time)
    → is_empty b.invocation_id ≡ false
    → is_zero b.pid ≡ true
    → (upsert_target m b now).0 ≡ b.invocation_id
unfolding upsert_target
upsert_target-key m b now named no_pid = ground arith

pub upsert_target-known :
    (m : Assoc Build) (b stored : Build) (now : Time)
    → is_empty b.invocation_id ≡ false
    → is_zero b.pid ≡ true
    → lookup b.invocation_id m ≡ some stored
    → (upsert_target m b now).1 ≡ stored
unfolding upsert_target
upsert_target-known m b stored now named no_pid h = ground arith

pub upsert_target-new :
    (m : Assoc Build) (b : Build) (now : Time)
    → is_empty b.invocation_id ≡ false
    → is_zero b.pid ≡ true
    → lookup b.invocation_id m ≡ none
    → (upsert_target m b now).1 ≡ discovered_build b.invocation_id now
unfolding upsert_target
upsert_target-new m b now named no_pid h = ground arith

-- An upsert by id only stores the merged build under the id.
pub lookup-upsert :
    (r : Registry) (b : Build) (now : Time)
    → is_empty b.invocation_id ≡ false
    → is_zero b.pid ≡ true
    → lookup b.invocation_id (upsert r b now).0.builds
      ≡ some (upsert_merge (upsert_target r.builds b now).1 b now)
unfolding upsert persist broadcast_build
lookup-upsert r b now named no_pid =
    let merged = upsert_merge (upsert_target r.builds b now).1 b now in
    let key = (upsert_target r.builds b now).0 in
    rw (named, upsert)
      (ground (
        arith,
        upsert_target-key r.builds b now named no_pid,
        lookup-insert key b.invocation_id merged r.builds,
        str_eq_iff key b.invocation_id,
      ))

ended_not_running : (st : State) → is_terminal st ≡ true → is_running_or_unset st ≡ false
unfolding is_terminal
ended_not_running queued h = absurd cc
ended_not_running running h = absurd cc
ended_not_running finished h = refl
ended_not_running failed h = refl
ended_not_running killed h = refl
ended_not_running gone h = refl
ended_not_running unknown h = refl
ended_not_running unset h = absurd cc
ended_not_running (other name) h = refl

pub upsert_merge-ends :
    (stored b : Build) (now : Time)
    → is_terminal b.state ≡ true
    → is_terminal (upsert_merge stored b now).state ≡ true
unfolding upsert_merge
upsert_merge-ends stored b now h = ground (arith, ended_not_running b.state h)
