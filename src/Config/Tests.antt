-- ===== src/Config/Tests.antt =====
-- The theorem on the configuration at an empty disk, whose file is written by the first load, with a text
-- of its own for a configuration.
use bazel_broker.Common.{
  ℕ, zero, suc, ◌≡◌, refl, ap, ◌∙◌, true, Option, none, some, List, [], ◌∷◌, ◌++◌, lit, GoString,
  pos, negsuc, ℤ, str_eq, str_eq_refl, if◌then◌else◌,
}
use bazel_broker.Config.{
  Config, Environment, contents, not_exist, ReadResult, Platform, Loaded, loaded, validate,
  hex_digit, hex_encode, validated, dir_or_home, config_dir, state_dir, config_path, apply_scalars,
  apply_paths, apply_defaults, default_config, save, complete, save_loaded, bootstrap, load_read,
  load,
}
use bazel_broker.Config.Laws.{IsFaithful, IsUsable, load-again}

abbrev put : GoString → GoString → GoString
put [] rest = 0 ∷ rest
put (c ∷ s) rest = suc c ∷ put s rest

abbrev put_all : List GoString → GoString → GoString
put_all [] rest = rest
put_all (s ∷ l) rest = put s (put_all l rest)

abbrev extend : ℕ → List GoString → List GoString
extend c [] = (c ∷ []) ∷ []
extend c (s ∷ l) = (c ∷ s) ∷ l

abbrev split : GoString → List GoString
split [] = []
split (zero ∷ s) = [] ∷ split s
split (suc c ∷ s) = extend c (split s)

split-put : (s rest : GoString) → split (put s rest) ≡ s ∷ split rest
split-put [] rest = refl
split-put (c ∷ s) rest = ap (extend c) (split-put s rest)

split-put_all : (l : List GoString) (rest : GoString) → split (put_all l rest) ≡ l ++ split rest
split-put_all [] rest = refl
split-put_all (s ∷ l) rest = split-put s (put_all l rest) ∙ ap (λ r. s ∷ r) (split-put_all l rest)

put-append : (s rest more : GoString) → put s rest ++ more ≡ put s (rest ++ more)
put-append [] rest more = refl
put-append (c ∷ s) rest more = ap (λ r. suc c ∷ r) (put-append s rest more)

put_all-append : (l : List GoString) (more : GoString) → put_all l [] ++ more ≡ put_all l more
put_all-append [] more = refl
put_all-append (s ∷ l) more = put-append s (put_all l []) more ∙ ap (put s) (put_all-append l more)

abbrev number : ℤ → GoString
number (pos n) = 0 ∷ n ∷ []
number (negsuc n) = 1 ∷ n ∷ []

abbrev number_of : GoString → ℤ
number_of (zero ∷ n ∷ s) = pos n
number_of (suc k ∷ n ∷ s) = negsuc n
number_of _ = pos 0

number_of-number : (z : ℤ) → number_of (number z) ≡ z
number_of-number (pos n) = refl
number_of-number (negsuc n) = refl

abbrev fields : Config → List GoString
fields c =
    c.host
    ∷ number c.port
    ∷ c.token
    ∷ c.profile_open
    ∷ c.disk_cache
    ∷ number c.max_concurrency
    ∷ c.db_path
    ∷ c.log_path
    ∷ []

abbrev from_fields : List GoString → Option Config
from_fields (h ∷ p ∷ t ∷ o ∷ d ∷ m ∷ b ∷ l ∷ rest) = some (record {
  host = h;
  port = number_of p;
  token = t;
  profile_open = o;
  disk_cache = d;
  max_concurrency = number_of m;
  db_path = b;
  log_path = l;
})
from_fields _ = none

abbrev platform : Platform
platform = record {
  Disk = GoString → ReadResult;
  read_file = λ w path. w path;
  mkdir_all = λ w path. (true, w);
  write_file = λ w path text. (true, λ p. if str_eq p path then contents text else w p);
  join = λ parts. put_all parts [];
  dir = λ path. path;
  marshal = λ c. put_all (fields c) [];
  unmarshal = λ text base. from_fields (split text);
}

platform-IsFaithful : IsFaithful platform
platform-IsFaithful = record {
  read-write = λ w path text e. rw (str_eq_refl path) refl;
  unmarshal-marshal = λ c base.
      ap (λ t. from_fields (split t)) (put_all-append (fields c) (10 ∷ []))
      ∙ ap from_fields (split-put_all (fields c) (10 ∷ []))
      ∙ (rw (number_of-number c.port, number_of-number c.max_concurrency) refl);
}

abbrev environment : Environment
environment = record {
  broker_config = lit "/c";
  xdg_config_home = [];
  xdg_state_home = [];
  home = some (lit "/h");
}

program : Unit {0}
unfolding str_eq validate hex_digit hex_encode validated dir_or_home config_dir state_dir
    config_path apply_scalars apply_paths apply_defaults default_config save complete save_loaded
    bootstrap load_read load
program = tt

abbrev first : Loaded × (GoString → ReadResult)
first = load platform environment (λ p. not_exist) (some (10 ∷ 255 ∷ []))

abbrev written : Config
written = record {
  host = lit "127.0.0.1";
  port = pos 8765;
  token = lit "0aff";
  profile_open = lit "perfetto";
  disk_cache = [];
  max_concurrency = pos 0;
  db_path =
      put_all
        (put_all (lit "/h" ∷ lit ".local" ∷ lit "state" ∷ lit "bazel-broker" ∷ []) []
          ∷ lit "broker.db"
          ∷ [])
        [];
  log_path =
      put_all
        (put_all (lit "/h" ∷ lit ".local" ∷ lit "state" ∷ lit "bazel-broker" ∷ []) []
          ∷ lit "broker.log"
          ∷ [])
        [];
}

load-again_example :
    IsUsable written × (load platform environment first.1 none ≡ (loaded written, first.1))
unfolding program
load-again_example =
    load-again platform environment (λ p. not_exist) first.1 (some (10 ∷ 255 ∷ [])) none written
      platform-IsFaithful refl
