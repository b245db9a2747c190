-- ===== src/Build.antt =====
-- internal/build/build.go, and the parts of internal/api/api.go that it fills. A state or a source that
-- is none of the declared ones is `other`, the empty string `unset`. A time stamp of the wire is the
-- instant that its text spells, or `none` for the empty text; a ratio is a number of millionths.
use bazel_broker.Common.{
  ℕ, suc, ◌+◌, ◌*◌, ◌-◌, ◌%◌, ◌/◌, Bool, true, false, Option, none, some, List, GoString, ℤ, pos,
  negsuc, sub_ℕ, ◌-ℤ◌, ◌==◌, if◌then◌else◌,
}
use bazel_broker.Admission.Types.{Time, Duration}

-- `time.UnixMilli` and `Time.UnixMilli`; the Unix epoch is so many nanoseconds after Go's zero time.
abbrev pub unix_epoch : Time
unix_epoch = 62135596800000000000

unfoldable pub unix_milli : ℕ → Time
unix_milli ms = unix_epoch + ms * 1000000

unfoldable pub to_unix_milli : Time → ℕ
to_unix_milli t = (t - unix_epoch) / 1000000

pub data State : Type 0 where
  queued running finished failed killed gone unknown unset : State
  other : GoString → State

-- `State.IsTerminal`.
unfoldable pub is_terminal : State → Bool
is_terminal finished = true
is_terminal failed = true
is_terminal killed = true
is_terminal gone = true
is_terminal _ = false

pub data Source : Type 0 where
  registered discovered no_source : Source
  other_source : GoString → Source

pub record Build : Type 0 where
  pub invocation_id : GoString
  pub worktree : GoString
  pub worktree_name : GoString
  pub command : GoString
  pub targets : List GoString
  pub pid : ℤ
  pub state : State
  pub start_time : Time
  pub end_time : Time
  pub exit_code : ℤ
  pub source : Source
  pub exe_path : GoString
  pub cwd : GoString
  pub git_dir : GoString
  pub last_seen : Time
  pub cache_hit_ratio : Option ℕ
  pub profile_url : GoString

-- `Build.Elapsed`.
unfoldable pub elapsed : Build → Time → Duration
elapsed b now = sub_ℕ (if b.end_time == 0 then now else b.end_time) b.start_time

-- `Duration.Milliseconds`, which rounds towards zero.
unfoldable pub milliseconds : Duration → ℤ
milliseconds (pos n) = pos (n / 1000000)
milliseconds (negsuc n) = pos 0 -ℤ pos (suc n / 1000000)

-- `api.FormatTime`, whose text has whole seconds.
unfoldable pub format_time : Time → Option Time
format_time t = if t == 0 then none else some (t - t % 1000000000)

pub record ApiBuild : Type 0 where
  pub invocation_id : GoString
  pub worktree : GoString
  pub worktree_name : GoString
  pub command : GoString
  pub targets : List GoString
  pub pid : ℤ
  pub state : State
  pub start_time : Option Time
  pub end_time : Option Time
  pub exit_code : ℤ
  pub source : Source
  pub elapsed_ms : ℤ
  pub cache_hit_ratio : Option ℕ
  pub profile_url : GoString

-- `Build.ToAPI`.
unfoldable pub to_api : Build → Time → ApiBuild
to_api b now = record {
  invocation_id = b.invocation_id;
  worktree = b.worktree;
  worktree_name = b.worktree_name;
  command = b.command;
  targets = b.targets;
  pid = b.pid;
  state = b.state;
  start_time = format_time b.start_time;
  end_time = format_time b.end_time;
  exit_code = b.exit_code;
  source = b.source;
  elapsed_ms = milliseconds (elapsed b now);
  cache_hit_ratio = b.cache_hit_ratio;
  profile_url = b.profile_url;
}

pub data EventType : Type 0 where
  event_snapshot event_build event_metrics event_alert : EventType

-- `api.AlertEvent`.
pub record AlertEvent : Type 0 where
  pub invocation_id : GoString
  pub worktree : GoString
  pub alert : GoString

-- `api.Event`, without the payload of a metrics event, which passes through unread.
pub record Event : Type 0 where
  pub type : EventType
  pub seq : ℕ
  pub build : Option ApiBuild
  pub builds : List ApiBuild
  pub ts : Option Time
  pub alert : Option AlertEvent
