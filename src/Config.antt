-- ===== src/Config.antt =====
-- internal/config/config.go: the configuration file, its defaults and its first writing. The environment,
-- the file system, `filepath`, the JSON encoding and the random bytes are parameters.
pub mod Laws
mod Tests
use bazel_broker.Common.{
  ℕ, ◌+◌, ◌/◌, ◌%◌, Bool, true, false, ◌||◌, Option, none, some, List, [], ◌∷◌, ◌++◌, GoString,
  is_empty, lit, ℤ, pos, is_zero, ltb, ltb_ℤ, if◌then◌else◌,
}

pub record Config : Type 0 where
  pub host : GoString
  pub port : ℤ
  pub token : GoString
  pub profile_open : GoString
  pub disk_cache : GoString
  pub max_concurrency : ℤ
  pub db_path : GoString
  pub log_path : GoString

-- The variables of the environment, empty where they are unset, and the home directory.
pub record Environment : Type 0 where
  pub broker_config : GoString
  pub xdg_config_home : GoString
  pub xdg_state_home : GoString
  pub home : Option GoString

pub data ReadResult : Type 0 where
  contents : GoString → ReadResult
  not_exist read_failed : ReadResult

-- What the configuration calls: a directory or a file that cannot be written leaves some other state.
pub record Platform : Type 1 where
  pub Disk : Type 0
  pub read_file : Disk → (path : GoString) → ReadResult
  pub mkdir_all : Disk → (path : GoString) → Bool × Disk
  pub write_file : Disk → (path text : GoString) → Bool × Disk
  pub join : List GoString → GoString
  pub dir : GoString → GoString
  pub marshal : Config → GoString
  pub unmarshal : GoString → Config → Option Config

pub data ConfigError : Type 0 where
  no_home parse_failed read_error no_random mkdir_failed write_failed : ConfigError
  invalid_port no_token no_db_path no_log_path : ConfigError

pub data Loaded : Type 0 where
  loaded : Config → Loaded
  load_failed : ConfigError → Loaded

-- `Validate`.
unfoldable pub validate : Config → Option ConfigError
validate c =
    if ltb_ℤ c.port (pos 1) || ltb_ℤ (pos 65535) c.port
    then some invalid_port
    else if is_empty c.token
    then some no_token
    else if is_empty c.db_path
    then some no_db_path
    else if is_empty c.log_path
    then some no_log_path
    else none

-- `generateToken`, given the random bytes.
unfoldable pub hex_digit : ℕ → ℕ
hex_digit n = if ltb n 10 then 48 + n else 87 + n

unfoldable pub hex_encode : List ℕ → GoString
hex_encode [] = []
hex_encode (b ∷ bs) = hex_digit (b / 16) ∷ hex_digit (b % 16) ∷ hex_encode bs

unfoldable pub validated : Config → Loaded
validated c = elim (validate c) [ none ↦ loaded c | some e ↦ load_failed e ]

abbrev pub or_text : GoString → GoString → GoString
or_text given default = if is_empty given then default else given

-- The configuration before any default.
abbrev pub zero_config : Config
zero_config = record {
  host = [];
  port = pos 0;
  token = [];
  profile_open = [];
  disk_cache = [];
  max_concurrency = pos 0;
  db_path = [];
  log_path = [];
}

module _ (P : Platform) (env : Environment) where
  -- The base directory of a variable, or the parts under the home directory.
  unfoldable pub dir_or_home : GoString → List GoString → Option GoString
  dir_or_home xdg parts =
      if is_empty xdg
      then elim env.home [ none ↦ none | some home ↦ some (P.join (home ∷ parts)) ]
      else some (P.join (xdg ∷ lit "bazel-broker" ∷ []))

  unfoldable pub config_dir : Option GoString
  config_dir = dir_or_home env.xdg_config_home (lit ".config" ∷ lit "bazel-broker" ∷ [])

  unfoldable pub state_dir : Option GoString
  state_dir = dir_or_home env.xdg_state_home (lit ".local" ∷ lit "state" ∷ lit "bazel-broker" ∷ [])

  unfoldable pub config_path : Option GoString
  config_path =
      if is_empty env.broker_config
      then elim config_dir [ none ↦ none | some d ↦ some (P.join (d ∷ lit "config.json" ∷ [])) ]
      else some env.broker_config

  -- The fields that `applyDefaults` sets before it looks for the state directory.
  unfoldable pub apply_scalars : Config → Config
  apply_scalars c = record c {
    host = or_text c.host (lit "127.0.0.1");
    port = if is_zero c.port then pos 8765 else c.port;
    profile_open = or_text c.profile_open (lit "perfetto");
  }

  unfoldable pub apply_paths : Config → GoString → Config
  apply_paths c sd = record c {
    db_path = or_text c.db_path (P.join (sd ∷ lit "broker.db" ∷ []));
    log_path = or_text c.log_path (P.join (sd ∷ lit "broker.log" ∷ []));
  }

  -- `applyDefaults`: the configuration as it leaves it, and whether it succeeded.
  unfoldable pub apply_defaults : Config → Config × Bool
  apply_defaults c =
      if is_empty c.db_path || is_empty c.log_path
      then elim state_dir [
        | none ↦ (apply_scalars c, false)
        | some sd ↦ (apply_paths (apply_scalars c) sd, true)
      ]
      else (apply_scalars c, true)

  -- `Default`, which ignores the error.
  unfoldable pub default_config : Config
  default_config = (apply_defaults zero_config).0

  -- `Save`: the error, if any.
  unfoldable pub save : P.Disk → GoString → Config → Option ConfigError × P.Disk
  save w path c =
      let (made, w1) = P.mkdir_all w (P.dir path) in
      let (written, w2) = P.write_file w1 path (P.marshal c ++ 10 ∷ []) in
      if made
      then if written then (none, w2) else (some write_failed, w2)
      else (some mkdir_failed, w1)

  -- `applyDefaults` and `Validate`, one after the other.
  unfoldable pub complete : Config → Loaded
  complete c = let (c', ok) = apply_defaults c in if ok then validated c' else load_failed no_home

  -- The end of `bootstrap`.
  unfoldable pub save_loaded : P.Disk → GoString → Loaded → Loaded × P.Disk
  save_loaded w path (load_failed e) = (load_failed e, w)
  save_loaded w path (loaded c) =
      let (err, w') = save w path c in (elim err [ none ↦ loaded c | some e ↦ load_failed e ], w')

  -- `bootstrap`. `random` is what `rand.Read` gives.
  unfoldable pub bootstrap : P.Disk → (random : Option (List ℕ)) → GoString → Loaded × P.Disk
  bootstrap w random path = elim random [
    | none ↦ (load_failed no_random, w)
    | some bytes ↦
        save_loaded w path (complete (record default_config { token = hex_encode bytes }))
  ]

  -- The case of `Load` on what was read.
  unfoldable pub load_read :
      P.Disk → (random : Option (List ℕ)) → GoString → ReadResult → Loaded × P.Disk
  load_read w random path (contents text) = (
    elim (P.unmarshal text default_config) [
      | none ↦ load_failed parse_failed
      | some c ↦ complete c
    ],
    w,
  )
  load_read w random path not_exist = bootstrap w random path
  load_read w random path read_failed = (load_failed read_error, w)

  -- `Load`.
  unfoldable pub load : P.Disk → (random : Option (List ℕ)) → Loaded × P.Disk
  load w random = elim config_path [
    | none ↦ (load_failed no_home, w)
    | some path ↦ load_read w random path (P.read_file w path)
  ]
