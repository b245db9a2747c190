-- ===== src/Server.antt =====
-- internal/httpapi/server.go, middleware.go and seams.go: the routes of the daemon, their bearer token and
-- the live handlers. What `http.ServeMux` matched is the route of the request, with its path values. The
-- JSON body and the query are what the decoder and `Atoi` make of them, `none` where they fail;
-- `strings.TrimSpace` is a parameter. The injected handlers stand over a state of their own. One
-- instant stands for the clock during a request; the version and the uptime of the health check are left out.
pub mod Laws
mod Tests
use bazel_broker.Common.{
  ℕ, Bool, true, false, ◌&&◌, ◌||◌, not, Option, none, some, List, [], ◌∷◌, ◌++◌, GoString,
  is_empty, lit, str_eq, ℤ, pos, ◌==◌, if◌then◌else◌,
}
use bazel_broker.Admission.Types.{Time}
use bazel_broker.Build.{Build, ApiBuild, Source, registered, no_source, to_api}
use bazel_broker.Registry.{
  Registry, Result, ok, err, blank_build, source_set, register, deregister, get_build,
}
use bazel_broker.Registry.Reports.{Counts, counts, snapshot_api}

-- The patterns of `Routes`, and a path that none of them matches.
pub data Route : Type 0 where
  healthz list_builds register_build register_alias deregister_alias events : Route
  one_build delete_build kill_build build_metrics build_profile : GoString → Route
  metrics_list disk_cache : Route
  profile_file : (id name : GoString) → Route
  admit release pause resume drain status : Route
  unmatched : GoString → Route

abbrev builds_path : GoString → GoString → GoString
builds_path id suffix = lit "/builds/" ++ id ++ suffix

-- The path of a request on a route.
unfoldable pub path_of : Route → GoString
path_of healthz = lit "/healthz"
path_of list_builds = lit "/builds"
path_of register_build = lit "/builds"
path_of register_alias = lit "/register"
path_of deregister_alias = lit "/deregister"
path_of events = lit "/events"
path_of (one_build id) = builds_path id []
path_of (delete_build id) = builds_path id []
path_of (kill_build id) = builds_path id (lit "/kill")
path_of (build_metrics id) = builds_path id (lit "/metrics")
path_of (build_profile id) = builds_path id (lit "/profile")
path_of metrics_list = lit "/metrics"
path_of disk_cache = lit "/diskcache"
path_of (profile_file id name) = lit "/profile/" ++ id ++ lit "/" ++ name
path_of admit = lit "/admission"
path_of release = lit "/admission/release"
path_of pause = lit "/admission/pause"
path_of resume = lit "/admission/resume"
path_of drain = lit "/admission/drain"
path_of status = lit "/admission/status"
path_of (unmatched path) = path

pub record RegisterRequest : Type 0 where
  pub invocation_id : GoString
  pub worktree : GoString
  pub targets : List GoString
  pub pid : ℤ
  pub source : Source

pub record DeregisterRequest : Type 0 where
  pub invocation_id : GoString
  pub exit_code : ℤ

pub record HttpRequest : Type 0 where
  pub route : Route
  pub authorization : GoString
  pub register_body : Option RegisterRequest
  pub deregister_body : Option DeregisterRequest
  pub exit_code : Option ℤ

pub data Body : Type 0 where
  error_body : (code : GoString) → Body
  build_body : ApiBuild → Body
  builds_body : List ApiBuild → Body
  health_body : Counts → Body
  foreign_body : GoString → Body

pub record HttpResponse : Type 0 where
  pub code : ℕ
  pub body : Body

abbrev pub write_error : ℕ → GoString → HttpResponse
write_error code name = record { code = code; body = error_body name }

abbrev pub write_build : Build → Time → HttpResponse
write_build b now = record { code = 200; body = build_body (to_api b now) }

-- `strings.HasPrefix`, and what follows the prefix.
unfoldable pub after_prefix : GoString → GoString → Option GoString
after_prefix [] s = some s
after_prefix (c ∷ p) [] = none
after_prefix (c ∷ p) (d ∷ s) = if c == d then after_prefix p s else none

abbrev pub starts_with : GoString → GoString → Bool
starts_with p s = elim (after_prefix p s) [ none ↦ false | some rest ↦ true ]

-- `authExempt`.
unfoldable pub auth_exempt : GoString → Bool
auth_exempt path = if str_eq path (lit "/healthz") then true else starts_with (lit "/profile/") path

-- `authorize`, given the configured token.
unfoldable pub authorize :
    (trim_space : GoString → GoString) → (token : GoString) → (header : GoString) → Bool
authorize trim_space token header = elim (after_prefix (lit "Bearer ") header) [
  | none ↦ false
  | some rest ↦
      let got = trim_space rest in
      if is_empty got || is_empty token then false else str_eq got token
]

-- `toDomain`.
unfoldable pub to_domain : RegisterRequest → Build
to_domain req = record (blank_build req.invocation_id 0) {
  worktree = req.worktree;
  targets = req.targets;
  pid = req.pid;
  source = if source_set req.source then req.source else registered;
}

-- The end of `handleRegister`, `handleDeregister` and `handleDeregisterPath`.
unfoldable pub answer_register : Time → Result Build → HttpResponse
answer_register now (err e) = write_error 400 (lit "bad_request")
answer_register now (ok b) = write_build b now

unfoldable pub answer_deregister : Time → Result (Option Build) → HttpResponse
answer_deregister now (err e) = write_error 400 (lit "bad_request")
answer_deregister now (ok none) = write_error 404 (lit "not_found")
answer_deregister now (ok (some b)) = write_build b now

unfoldable pub handle_register : Registry → Option RegisterRequest → Time → HttpResponse × Registry
handle_register r none now = (write_error 400 (lit "bad_request"), r)
handle_register r (some req) now =
    let (r', result) = register r (to_domain req) now in
    if is_empty req.invocation_id || is_empty req.worktree
    then (write_error 400 (lit "bad_request"), r)
    else (answer_register now result, r')

unfoldable pub handle_deregister :
    Registry → Option DeregisterRequest → Time → HttpResponse × Registry
handle_deregister r none now = (write_error 400 (lit "bad_request"), r)
handle_deregister r (some req) now =
    let (r', result) = deregister r req.invocation_id req.exit_code now in
    if is_empty req.invocation_id
    then (write_error 400 (lit "bad_request"), r)
    else (answer_deregister now result, r')

unfoldable pub handle_deregister_path :
    Registry → GoString → (exit_code : Option ℤ) → Time → HttpResponse × Registry
handle_deregister_path r id exit_code now =
    let code : ℤ = elim exit_code [ none ↦ pos 0 | some n ↦ n ] in
    let (r', result) = deregister r id code now in (answer_deregister now result, r')

unfoldable pub handle_get_build : Registry → GoString → Time → HttpResponse
handle_get_build r id now = elim (get_build r id) [
  | none ↦ write_error 404 (lit "not_found")
  | some b ↦ write_build b now
]

-- The injected handlers: over the registry and a state of their own.
abbrev pub Seam : Type 0 → Type 0
Seam S = HttpRequest → Time → Registry × S → HttpResponse × (Registry × S)

-- `default501`.
unfoldable pub default_501 : {S : Type 0} → Seam S
default_501 req now s = (write_error 501 (lit "not_implemented"), s)

pub record Server (S : Type 0) : Type 0 where
  pub token : GoString
  pub trim_space : GoString → GoString
  pub killer : Seam S
  pub metrics : Seam S
  pub admitter : Seam S
  pub handle_events : Seam S

-- `New`, before its options.
unfoldable pub new_server : {S : Type 0} → GoString → (GoString → GoString) → Seam S → Server S
new_server token trim_space handle_events = record {
  token = token;
  trim_space = trim_space;
  killer = default_501;
  metrics = default_501;
  admitter = default_501;
  handle_events = handle_events;
}

module _ {S : Type 0} (srv : Server S) where
  abbrev lift : S → HttpResponse × Registry → HttpResponse × (Registry × S)
  lift s (resp, r) = (resp, (r, s))

  -- The handler that `Routes` gives to each pattern; the mux answers 404 where none matches.
  unfoldable pub route_request : HttpRequest → Time → Registry × S → HttpResponse × (Registry × S)
  route_request req now (r, s) = elim req.route [
    | healthz ↦ (record { code = 200; body = health_body (counts r) }, (r, s))
    | list_builds ↦ (record { code = 200; body = builds_body (snapshot_api r now) }, (r, s))
    | one_build id ↦ (handle_get_build r id now, (r, s))
    | register_build ↦ lift s (handle_register r req.register_body now)
    | register_alias ↦ lift s (handle_register r req.register_body now)
    | delete_build id ↦ lift s (handle_deregister_path r id req.exit_code now)
    | deregister_alias ↦ lift s (handle_deregister r req.deregister_body now)
    | events ↦ srv.handle_events req now (r, s)
    | kill_build id ↦ srv.killer req now (r, s)
    | build_metrics id ↦ srv.metrics req now (r, s)
    | build_profile id ↦ srv.metrics req now (r, s)
    | metrics_list ↦ srv.metrics req now (r, s)
    | profile_file id name ↦ srv.metrics req now (r, s)
    | disk_cache ↦ srv.metrics req now (r, s)
    | admit ↦ srv.admitter req now (r, s)
    | release ↦ srv.admitter req now (r, s)
    | pause ↦ srv.admitter req now (r, s)
    | resume ↦ srv.admitter req now (r, s)
    | drain ↦ srv.admitter req now (r, s)
    | status ↦ srv.admitter req now (r, s)
    | unmatched path ↦ (write_error 404 [], (r, s))
  ]

  -- The `auth` middleware around the mux.
  unfoldable pub serve_http : HttpRequest → Time → Registry × S → HttpResponse × (Registry × S)
  serve_http req now st =
      if auth_exempt (path_of req.route) || authorize srv.trim_space srv.token req.authorization
      then route_request req now st
      else (write_error 401 (lit "unauthorized"), st)
