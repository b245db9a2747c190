-- ===== src/Cli/Watch.antt =====
-- internal/cli/watch.go: the view of the builds that `brokerctl watch` keeps, and its reconnections. How
-- each connection ends, and the random part of each wait, are a list of attempts; a wait is a number of
-- nanoseconds.
pub mod Laws
mod Tests
use bazel_broker.Common.{
  ℕ, ◌+◌, ◌*◌, ◌/◌, Bool, true, false, ◌||◌, ltb, ◌==◌, if◌then◌else◌, Option, none, some, List, [],
  ◌∷◌, Assoc, insert,
}
use bazel_broker.Cli.Client.{exit_auth, exit_unavailable}
use bazel_broker.Build.{ApiBuild, Event, event_snapshot, event_build, event_metrics, event_alert}

-- The loop of `applyEvent` over the builds of a snapshot.
unfoldable pub insert_builds : List ApiBuild → Assoc ApiBuild → Assoc ApiBuild
insert_builds [] state = state
insert_builds (b ∷ bs) state = insert_builds bs (insert b.invocation_id b state)

-- `applyEvent`.
unfoldable pub apply_event : Assoc ApiBuild → Event → Assoc ApiBuild
apply_event state ev = elim ev.type [
  | event_snapshot ↦ insert_builds ev.builds []
  | event_build ↦ elim ev.build [ none ↦ state | some b ↦ insert b.invocation_id b state ]
  | event_metrics ↦ state
  | event_alert ↦ state
]

-- The loop of `watchOnce` over the frames of one connection, which starts from an empty state.
unfoldable pub apply_all : Assoc ApiBuild → List Event → Assoc ApiBuild
apply_all state [] = state
apply_all state (ev ∷ evs) = apply_all (apply_event state ev) evs

-- The error of a connection: one with an exit code, or the end of the connection.
pub data WatchError : Type 0 where
  cli_error : (code : ℕ) → WatchError
  conn_error : WatchError

-- `isAuthErr`, `isConnClosed` and `isReconnectable`.
unfoldable pub is_auth_err : Option WatchError → Bool
is_auth_err (some (cli_error code)) = code == exit_auth
is_auth_err _ = false

unfoldable pub is_conn_closed : Option WatchError → Bool
is_conn_closed (some conn_error) = true
is_conn_closed _ = false

unfoldable pub is_reconnectable : Option WatchError → Bool
is_reconnectable (some (cli_error code)) = code == exit_unavailable
is_reconnectable err = is_conn_closed err

pub record Backoff : Type 0 where
  pub cur : ℕ
  pub max : ℕ
  pub base : ℕ

-- `newBackoff`.
unfoldable pub new_backoff : (base max : ℕ) → Backoff
new_backoff base max = record { cur = base; max = max; base = base }

abbrev pub capped : ℕ → ℕ → ℕ
capped max d = if ltb max d then max else d

-- The wait of `sleep`, without its random part, which is at most as long again.
unfoldable pub half_wait : Backoff → ℕ
half_wait b = capped b.max b.cur / 2

-- What `sleep` leaves when the timer fires.
unfoldable pub doubled : Backoff → Backoff
doubled b = record b { cur = capped b.max (b.cur * 2) }

-- One round of `RunWatch`: whether the context is done after the connection and in the wait that follows,
-- the error, and the random part of the wait.
pub record Attempt : Type 0 where
  pub cancelled : Bool
  pub err : Option WatchError
  pub jitter : ℕ
  pub woken : Bool

pub data Decision : Type 0 where
  returns : Option WatchError → Decision
  reconnects : Decision

-- The `switch` of `RunWatch`.
unfoldable pub decide : (once : Bool) → Attempt → Decision
decide once a =
    let ended : Bool = elim a.err [ none ↦ true | some e ↦ false ] in
    if a.cancelled
    then returns none
    else if is_auth_err a.err
    then returns a.err
    else if once
    then if ended || is_conn_closed a.err then returns none else returns a.err
    else if ended || is_reconnectable a.err
    then reconnects
    else returns a.err

-- The rest of a round: the waits before the reconnections, and the result, `none` where the attempts end
-- first. A wait that the context cuts short is not counted.
unfoldable pub finish_round :
    Decision
    → (woken : Bool) → (wait : ℕ) → List ℕ × Option (Option WatchError)
    → List ℕ × Option (Option WatchError)
finish_round (returns e) woken wait rest = ([], some e)
finish_round reconnects true wait rest = ([], some none)
finish_round reconnects false wait (waits, result) = (wait ∷ waits, result)

-- The loop of `RunWatch`.
unfoldable pub run_watch :
    (once : Bool) → Backoff → List Attempt → List ℕ × Option (Option WatchError)
run_watch once b [] = ([], none)
run_watch once b (a ∷ more) =
    finish_round (decide once a) a.woken (half_wait b + a.jitter) (run_watch once (doubled b) more)
